-- ===== src/Browser/Sets.antt =====
-- Membership after the changes of a set of keys.
use graph_extraction.Base.{
  ◌≡◌, refl, ap, inl, inr, String, ◌&&◌, ◌||◌, not, List, [], ◌∷◌, ◌++◌, str_eq, eq_iff, Bool-cases,
  arith,
}
use graph_extraction.Base.Texts.{mem}
use graph_extraction.Browser.App.{discard, minus}

pub mem-discard :
    (j k : String) (s : List String) → mem k (discard j s) ≡ (not (str_eq j k) && mem k s)
unfolding mem discard
mem-discard j k [] = ground arith
mem-discard j k (x ∷ s) = ground (arith, eq_iff j k, eq_iff j x, eq_iff x k, mem-discard j k s)

pub mem-append : (k : String) (xs s : List String) → mem k (xs ++ s) ≡ (mem k xs || mem k s)
unfolding mem
mem-append k [] s = refl
mem-append k (x ∷ xs) s = ground (arith, mem-append k xs s)

pub mem-minus : (k : String) (xs s : List String) → mem k (minus xs s) ≡ (not (mem k xs) && mem k s)
unfolding mem minus
mem-minus k xs [] = ground arith
mem-minus k xs (x ∷ s) = elim (Bool-cases (str_eq x k)) [
  | inl t ↦
      let same : mem x xs ≡ mem k xs = ap (λ y. mem y xs) ((eq_iff x k).0 t) in
      ground (arith, same, t, mem-minus k xs s)
  | inr t ↦ ground (arith, t, mem-minus k xs s)
]
