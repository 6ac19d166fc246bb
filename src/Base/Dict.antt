-- ===== src/Base/Dict.antt =====
-- Python's `dict` with text keys, and files under numbered names as functions.
use Prim.Native.Nat.{ℕ}
use Prim.Native.String.{String}
use mathlib.Core.Path.{◌≡◌, refl, sym, ap, ◌∙◌}
use mathlib.Core.Logic.{◌≢◌, inl, inr}
use mathlib.Core.List
use mathlib.Core.Option
use mathlib.Core.Option.{Option, none, some}
use mathlib.Core.List.{List, [], ◌∷◌}
use native.Mathlib.Omega.{arith}
use text.Mathlib.TextEquality.{eq_iff}
use mathlib.Core.Bool.{Bool, true, false, ◌&&◌}
use graph_extraction.Base.Lists.{length}
use graph_extraction.Base.Tests.{◌==◌, str_eq, if◌then◌else◌, Bool-cases}

abbrev pub Dict {ℓ} : Type ℓ → Type ℓ
Dict V = List (String × V)

module _ {ℓ} {V : Type ℓ} where
  -- `d.get(k)`
  unfoldable pub lookup : String → Dict V → Option V
  lookup k [] = none
  lookup k ((j, v) ∷ d) = if str_eq j k then some v else lookup k d

  -- `d[k] = v`
  unfoldable pub insert : String → V → Dict V → Dict V
  insert k v [] = (k, v) ∷ []
  insert k v ((j, w) ∷ d) = if str_eq j k then (k, v) ∷ d else (j, w) ∷ insert k v d

  -- `del d[k]`
  unfoldable pub erase : String → Dict V → Dict V
  erase k [] = []
  erase k ((j, w) ∷ d) = let rest = erase k d in if str_eq j k then rest else (j, w) ∷ rest

  -- `list(d.values())`
  unfoldable pub values : Dict V → List V
  values [] = []
  values ((j, w) ∷ d) = w ∷ values d

  -- The keys of a dict are distinct.
  abbrev pub NodupKeys : Dict V → Type ℓ
  NodupKeys [] = Unit
  NodupKeys ((k, _) ∷ d) = (lookup k d ≡ none) × NodupKeys d

  pub lookup-nil : (k : String) → lookup k [] ≡ none
  unfolding lookup
  lookup-nil k = refl

  pub lookup-cons :
      (k j : String) (v : V) (d : Dict V)
      → lookup k ((j, v) ∷ d) ≡ (if str_eq j k then some v else lookup k d)
  unfolding lookup
  lookup-cons k j v d = refl

  pub lookup-insert :
      (k j : String) (v : V) (d : Dict V)
      → lookup j (insert k v d) ≡ (if str_eq k j then some v else lookup j d)
  unfolding lookup insert
  lookup-insert k j v [] = refl
  lookup-insert k j v ((i, w) ∷ d) =
      ground (arith, eq_iff k j, eq_iff i k, eq_iff i j, lookup-insert k j v d)

module _ {ℓ} {V : Type ℓ} where
  pub lookup-erase :
      (k j : String) (d : Dict V) → lookup j (erase k d) ≡ (if str_eq k j then none else lookup j d)
  unfolding lookup erase
  lookup-erase k j [] = ground arith
  lookup-erase k j ((i, w) ∷ d) =
      ground (arith, eq_iff k j, eq_iff i k, eq_iff i j, lookup-erase k j d)

-- Files by number: a read, a write and a removal.
abbrev pub Files {ℓ} : Type ℓ → Type ℓ
Files F = ℕ → Option F

abbrev pub update {ℓ} : {F : Type ℓ} → Files F → ℕ → Option F → Files F
update m i v j = if i == j then v else m j

pub update_self {ℓ} :
    {F : Type ℓ} (m : Files F) (i j : ℕ) (v : Option F) → i ≡ j → update m i v j ≡ v
update_self m i j v h = ground arith

pub update_ne {ℓ} :
    {F : Type ℓ} (m : Files F) (i j : ℕ) (v : Option F) → j ≢ i → update m i v j ≡ m j
update_ne m i j v h = ground arith

-- A dict with every value changed in the same way.
pub lookup-map {ℓ κ} :
    {V : Type ℓ} {W : Type κ} (f : V → W) (k : String) (d : Dict V)
    → lookup k (List.map (λ (j, v). (j, f v)) d) ≡ Option.map f (lookup k d)
unfolding lookup
lookup-map f k [] = refl
lookup-map f k ((j, v) ∷ d) = elim (Bool-cases (str_eq j k)) [
  | inl e ↦ rw e
  | inr e ↦ rw e (lookup-map f k d)
]

module _ {ℓ} {V : Type ℓ} where
  lookup_head : (k : String) (v : V) (d : Dict V) → lookup k ((k, v) ∷ d) ≡ some v
  unfolding lookup
  lookup_head k v d = ground (arith, eq_iff k k)

  lookup_tail :
      (k : String) (v : V) (j : String) (w : V) (d : Dict V)
      → lookup k d ≡ none
      → lookup j d ≡ some w
      → lookup j ((k, v) ∷ d) ≡ some w
  unfolding lookup
  lookup_tail k v j w d n e = elim (Bool-cases (str_eq k j)) [
    | inl t ↦
        let same : k ≡ j = (eq_iff k j).0 t in
        absurd (some_ne_none w (sym e ∙ ap (λ i. lookup i d) (sym same) ∙ n))
    | inr t ↦ rw t e
  ]
    where
      some_ne_none : (w : V) → some w ≢ none
      some_ne_none w h = absurd (ground arith)

-- Python's `==` on dicts: as many keys, and each key of the one with an equal value in the other.
module _ {ℓ} {V : Type ℓ} (value_eq : V → V → Bool) where
  abbrev equals_some : V → Option V → Bool
  equals_some v none = false
  equals_some v (some w) = value_eq v w

  all_found : Dict V → Dict V → Bool
  all_found [] d = true
  all_found ((k, v) ∷ rest) d = equals_some v (lookup k d) && all_found rest d

  unfoldable pub dict_eq : Dict V → Dict V → Bool
  unfolding all_found
  dict_eq d d' = (length d == length d') && all_found d d'

  module _ (value_eq_refl : (v : V) → value_eq v v ≡ true) where
    all_found-sub :
        (d d' : Dict V)
        → NodupKeys d
        → ((k : String) (v : V) → lookup k d ≡ some v → lookup k d' ≡ some v)
        → all_found d d' ≡ true
    unfolding all_found
    all_found-sub [] d' n h = refl
    all_found-sub ((k, v) ∷ d) d' n h =
        let found = h k v (lookup_head k v d) in
        rw (found, value_eq_refl v)
          (all_found-sub d d' n.1 (λ j w e. h j w (lookup_tail k v j w d n.0 e)))

    pub dict_eq_refl : (d : Dict V) → NodupKeys d → dict_eq d d ≡ true
    unfolding dict_eq
    dict_eq_refl d n =
        let same : (length d == length d) ≡ true = ground arith in
        rw same (all_found-sub d d n (λ k v e. e))
