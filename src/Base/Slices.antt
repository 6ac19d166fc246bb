-- ===== src/Base/Slices.antt =====
-- Python slices `xs[a:b]`, slice assignment, and runs of values `g s, g (s + 1), …`.
use Prim.Native.Nat.{ℕ, zero, suc, ◌+◌, ◌-◌, ◌≤◌}
use mathlib.Core.Path.{◌≡◌, refl, ap, ◌∙◌}
use mathlib.Core.List.{List, [], ◌∷◌, ◌++◌}
use native.Mathlib.Omega.{arith}
use graph_extraction.Base.Lists.{length, take, drop, length-append, length-take, length-drop}

module _ {ℓ} {A : Type ℓ} where
  -- `xs[a:b]` for `a ≤ b`.
  abbrev pub slice : ℕ → ℕ → List A → List A
  slice a b xs = take (b - a) (drop a xs)

  -- What `xs` is after `xs[a:b] = ys`, where `ys` has `b - a` elements.
  abbrev pub splice : ℕ → ℕ → List A → List A → List A
  splice a b ys xs = take a xs ++ (ys ++ drop b xs)

  -- `[g(s), g(s + 1), …]`, `n` values.
  unfoldable pub seg : (ℕ → A) → ℕ → ℕ → List A
  seg g s zero = []
  seg g s (suc n) = g s ∷ seg g (suc s) n

  pub length-seg : (g : ℕ → A) (s n : ℕ) → length (seg g s n) ≡ n
  unfolding seg
  length-seg g s zero = refl
  length-seg g s (suc n) = ap suc (length-seg g (suc s) n)

  pub seg_cong : (g : ℕ → A) (s t m n : ℕ) → s ≡ t → m ≡ n → seg g s m ≡ seg g t n
  seg_cong g s t m n p q = rw (p, q)

  pub seg-zero : (g : ℕ → A) (s : ℕ) → seg g s 0 ≡ []
  unfolding seg
  seg-zero g s = refl

  pub seg-append :
      (g : ℕ → A) (s m n t k : ℕ) → s + m ≡ t → m + n ≡ k → seg g s m ++ seg g t n ≡ seg g s k
  unfolding seg
  seg-append g s zero n t k e f =
      let e' : t ≡ s = omega arith in let f' : k ≡ n = omega arith in rw (e', f') refl
  seg-append g s (suc m) n t zero e f = absurd (omega arith)
  seg-append g s (suc m) n t (suc k) e f =
      ap (λ xs. g s ∷ xs) (seg-append g (suc s) m n t k (omega arith) (omega arith))

  pub drop-seg :
      (g : ℕ → A) (s n m t k : ℕ) → s + m ≡ t → m + k ≡ n → drop m (seg g s n) ≡ seg g t k
  unfolding seg
  drop-seg g s n zero t k e f =
      let e' : t ≡ s = omega arith in let f' : k ≡ n = omega arith in rw (e', f') refl
  drop-seg g s zero (suc m) t k e f = absurd (omega arith)
  drop-seg g s (suc n) (suc m) t k e f = drop-seg g (suc s) n m t k (omega arith) (omega arith)

  pub take-seg : (g : ℕ → A) (s n m : ℕ) → m ≤ n → take m (seg g s n) ≡ seg g s m
  unfolding seg
  take-seg g s n zero h = refl
  take-seg g s zero (suc m) h = absurd (omega arith)
  take-seg g s (suc n) (suc m) h = ap (λ xs. g s ∷ xs) (take-seg g (suc s) n m (omega arith))

  -- A slice of a run is a run.
  pub slice-seg :
      (g : ℕ → A) (s n a b t : ℕ)
      → s + a ≡ t
      → a ≤ b
      → b ≤ n
      → slice a b (seg g s n) ≡ seg g t (b - a)
  slice-seg g s n a b t e h k =
      ap (take (b - a)) (drop-seg g s n a t (n - a) e (omega arith))
      ∙ take-seg g t (n - a) (b - a) (omega arith)

  pub take-append_exact : (n : ℕ) (xs ys : List A) → length xs ≡ n → take n (xs ++ ys) ≡ xs
  take-append_exact zero [] ys h = refl
  take-append_exact zero (x ∷ xs) ys h = absurd (omega arith)
  take-append_exact (suc n) [] ys h = absurd (omega arith)
  take-append_exact (suc n) (x ∷ xs) ys h =
      ap (λ zs. x ∷ zs) (take-append_exact n xs ys (omega arith))

  pub length-splice :
      (a b : ℕ) (ys xs : List A)
      → a ≤ b
      → b ≤ length xs
      → length ys ≡ b - a
      → length (splice a b ys xs) ≡ length xs
  length-splice a b ys xs h k e = omega (
    arith,
    length-append (take a xs) (ys ++ drop b xs),
    length-append ys (drop b xs),
    length-take a xs,
    length-drop b xs,
  )
