-- ===== src/Base/Texts.antt =====
-- Python's tests on texts, and lists of texts as sets.
use Prim.Native.String
use Prim.Native.String.{String, ◌++◌}
use Prim.Native.Char.{Char}
use Prim.Native.Nat.{ℕ, zero, suc, ◌+◌, ◌<◌}
use mathlib.Core.Path.{◌≡◌, refl, ap}
use mathlib.Core.Logic.{◌≢◌, inl, inr}
use mathlib.Core.Bool.{Bool, true, false, ◌||◌}
use mathlib.Core.List.{List, [], ◌∷◌}
use native.Mathlib.Omega.{arith}
use text.Mathlib.TextEquality.{eq_iff}
use text.Mathlib.TextPositions.{eq_refl}
use text.Mathlib.TextLemmas.{cons-append, nil-append, length-cons, length-append}
use graph_extraction.Base.Tests.{str_eq, Bool-cases}

-- `s.endswith(suffix)`
unfoldable pub ends_with : String → String → Bool
ends_with String.[] suffix = str_eq "" suffix
ends_with (String.◌∷◌ c s) suffix = str_eq (String.◌∷◌ c s) suffix || ends_with s suffix

pub str_ne : (s t : String) → s ≢ t → str_eq s t ≡ false
str_ne s t h = elim (Bool-cases (str_eq s t)) [ inl e ↦ absurd (h ((eq_iff s t).0 e)) | inr e ↦ e ]

pub str_eq_self : (s : String) → str_eq s s ≡ true
str_eq_self s = eq_refl s

ends_with_self : (t : String) → ends_with t t ≡ true
unfolding ends_with
ends_with_self String.[] = refl
ends_with_self (String.◌∷◌ c s) = rw (str_eq_self (String.◌∷◌ c s)) refl

ends_with-cons :
    (c : Char) (s t : String)
    → ends_with (String.◌∷◌ c s) t ≡ (str_eq (String.◌∷◌ c s) t || ends_with s t)
unfolding ends_with
ends_with-cons c s t = refl

or_true : (b : Bool) → (b || true) ≡ true
or_true true = refl
or_true false = refl

pub ends_with-append : (s t : String) → ends_with (s ++ t) t ≡ true
ends_with-append String.[] t = rw nil-append (ends_with_self t)
ends_with-append (String.◌∷◌ c s) t =
    rw (cons-append, ends_with-cons, ends_with-append s t)
      (or_true (str_eq (String.◌∷◌ c (s ++ t)) t))

-- A text that ends in a longer one does not end in another suffix, if that one does not.
pub ends_with-append_other :
    (s t u : String)
    → String.count u < String.count t + 1
    → ends_with t u ≡ false
    → ends_with (s ++ t) u ≡ false
ends_with-append_other String.[] t u l h = rw nil-append h
ends_with-append_other (String.◌∷◌ c s) t u l h =
    let ne : String.◌∷◌ c (s ++ t) ≢ u =
      λ e. absurd (omega (arith, ap String.count e, length-cons c (s ++ t), length-append s t)) in
    rw (cons-append, ends_with-cons, str_ne (String.◌∷◌ c (s ++ t)) u ne)
      (ends_with-append_other s t u l h)

-- `name in names`
unfoldable pub mem : String → List String → Bool
mem name [] = false
mem name (x ∷ xs) = str_eq x name || mem name xs

-- `s[n:]`
unfoldable pub drop_chars : ℕ → String → String
drop_chars zero s = s
drop_chars (suc n) String.[] = ""
drop_chars (suc n) (String.◌∷◌ c s) = drop_chars n s

pub drop_chars-append : (s t : String) → drop_chars (String.count s) (s ++ t) ≡ t
unfolding drop_chars
drop_chars-append String.[] t = rw nil-append refl
drop_chars-append (String.◌∷◌ c s) t = rw (cons-append, length-cons c s) (drop_chars-append s t)
