-- ===== src/BatchSize/Laws.antt =====
-- The two loops of `find_max_batch_size` end, and what they end with.
use graph_extraction.Base.{
  ℕ, zero, suc, ◌+◌, ◌-◌, ◌*◌, ◌/◌, ◌≤◌, ◌<◌, ◌≡◌, ◌⊎◌, inl, inr, refl, ◌∙◌, subst, true, false,
  Bool-cases, none, some, leb, ltb, arith, leb→le,
}
use graph_extraction.BatchSize.{
  Attempt, completes, runtime_error, other_error, is_oom_error, judge, run_failed,
  does_not_fit_at_start, diverges, Outcome, ok, raised, ◌>>=◌, Bracket, fits, double, bisect,
  narrow, find_max_batch_size,
}

module _ (attempt : ℕ → Attempt) where
  -- The run returns a value that satisfies `P`, or a forward pass has failed for another reason.
  abbrev pub Ends : {A : Type 0} → Outcome A → (A → Type 0) → Type 0
  Ends (ok a) P = P a
  Ends (raised run_failed) P = (batch : ℕ) × (fits attempt batch ≡ raised run_failed)
  Ends (raised does_not_fit_at_start) P = ⊥
  Ends (raised diverges) P = ⊥

  Ends-mono :
      {A : Type 0} (P Q : A → Type 0) (r : Outcome A) → ((a : A) → P a → Q a) → Ends r P → Ends r Q
  Ends-mono P Q (ok a) f h = f a h
  Ends-mono P Q (raised run_failed) f h = h
  Ends-mono P Q (raised does_not_fit_at_start) f h = h
  Ends-mono P Q (raised diverges) f h = h

  abbrev pub Fits : ℕ → Type 0
  Fits batch = fits attempt batch ≡ ok true

  abbrev pub Overflows : ℕ → Type 0
  Overflows batch = fits attempt batch ≡ ok false

  judged :
      (a : Attempt)
      → (judge attempt a ≡ ok true)
        ⊎ (judge attempt a ≡ ok false)
        ⊎ (judge attempt a ≡ raised run_failed)
  judged completes = inl refl
  judged (runtime_error msg type_name) = elim (Bool-cases (is_oom_error msg type_name)) [
    | inl e ↦ inr (inl (rw e refl))
    | inr e ↦ inr (inr (rw e refl))
  ]
  judged other_error = inr (inr refl)

  fits-cases : (batch : ℕ) → Fits batch ⊎ Overflows batch ⊎ (fits attempt batch ≡ raised run_failed)
  unfolding fits
  fits-cases batch = judged (attempt batch)

  -- What a bisection between a size that fits and one that does not ends with.
  abbrev pub Bisected : ℕ → ℕ → ℕ → Type 0
  Bisected lo hi r = Fits r × Overflows (r + 1) × (lo ≤ r) × (r < hi)

  bisect-Ends :
      (fuel lo hi : ℕ)
      → Fits lo
      → Overflows hi
      → lo < hi
      → hi - lo ≤ fuel
      → Ends (bisect attempt fuel lo hi) (Bisected lo hi)
  unfolding bisect
  bisect-Ends zero lo hi a b h k = absurd (omega arith)
  bisect-Ends (suc fuel) lo hi a b h k = elim (Bool-cases (ltb 1 (hi - lo))) [
    | inr t ↦ let e : hi ≡ lo + 1 = ground arith in rw t (a, subst Overflows e b, omega arith, h)
    | inl t ↦
        let mid = (lo + hi) / 2 in
        let wide : 1 < hi - lo = ground arith in
        rw t (elim (fits-cases mid) [
          | inl x ↦ rw x (
              Ends-mono (Bisected mid hi) (Bisected lo hi) _ (λ r g. (g.0, g.1, omega arith, g.3))
                (bisect-Ends fuel mid hi x b (omega arith) (omega arith)))
          | inr (inl x) ↦ rw x (
              Ends-mono (Bisected lo mid) (Bisected lo hi) _ (λ r g. (g.0, g.1, g.2, omega arith))
                (bisect-Ends fuel lo mid a x (omega arith) (omega arith)))
          | inr (inr x) ↦ rw x (mid, x)
        ])
  ]

  -- What the doubling ends with: a size that fits and twice the size, which does not; or one that
  -- fits behind the bound.
  abbrev pub Bracketed : ℕ → ℕ → Bracket → Type 0
  Bracketed max_batch start b =
      Fits b.lo
      × (start ≤ b.lo)
      × ((b.hi ≡ none) × (max_batch < b.lo)
          ⊎ (b.hi ≡ some (b.lo * 2)) × Overflows (b.lo * 2) × (b.lo ≤ max_batch))
      × ((b.lo ≡ start) ⊎ (b.lo ≤ max_batch * 2))

  double-Ends :
      (fuel max_batch start lo : ℕ)
      → Fits lo
      → 0 < start
      → start ≤ lo
      → (lo ≡ start) ⊎ (lo ≤ max_batch * 2)
      → max_batch < lo + fuel
      → Ends (double attempt fuel max_batch lo lo) (Bracketed max_batch start)
  unfolding double
  double-Ends zero max_batch start lo a p h q k = elim (Bool-cases (leb lo max_batch)) [
    | inl t ↦ absurd (omega (arith, leb→le lo max_batch t))
    | inr t ↦ rw t (a, h, inl (refl, omega arith), q)
  ]
  double-Ends (suc fuel) max_batch start lo a p h q k = elim (Bool-cases (leb lo max_batch)) [
    | inr t ↦ rw t (a, h, inl (refl, ground arith), q)
    | inl t ↦
        let le : lo ≤ max_batch = leb→le lo max_batch t in
        rw t (elim (fits-cases (lo * 2)) [
          | inl x ↦ rw x (
              double-Ends fuel max_batch start (lo * 2) x p (omega arith) (inr (omega arith))
                (omega arith))
          | inr (inl x) ↦ rw x (a, h, inr (refl, x, le), q)
          | inr (inr x) ↦ rw x (lo * 2, x)
        ])
  ]

  -- The size found.
  abbrev pub Found : ℕ → ℕ → ℕ → Type 0
  Found start max_batch r =
      Fits r
      × (start ≤ r)
      × ((max_batch < r) ⊎ Overflows (r + 1))
      × ((r ≡ start) ⊎ (r ≤ max_batch * 2))

  narrow-Ends :
      (start max_batch : ℕ) (b : Bracket)
      → 0 < start
      → Bracketed max_batch start b
      → Ends (narrow attempt b) (Found start max_batch)
  narrow-Ends start max_batch b p (a, h, inl (e, g), q) = rw e (a, h, inl g, q)
  narrow-Ends start max_batch b p (a, h, inr (e, x, g), q) = rw e (
      Ends-mono (Bisected b.lo (b.lo * 2)) (Found start max_batch) _
        (λ r k. (k.0, omega arith, inr k.1, inr (omega arith)))
        (bisect-Ends (b.lo * 2 - b.lo) b.lo (b.lo * 2) a x (omega arith) (omega arith)))

  -- From a positive size that fits, `find_max_batch_size` ends, whatever fits else: unless a
  -- forward pass fails for another reason than memory, it returns a size from `start` on that
  -- fits. The next size does not fit, or the size found is above `max_batch`; and it is `start`
  -- itself or at most twice `max_batch`.
  pub find_max_batch_size_lem :
      (start max_batch : ℕ)
      → 0 < start
      → Fits start
      → Ends (find_max_batch_size attempt start max_batch) (Found start max_batch)
  unfolding find_max_batch_size
  find_max_batch_size_lem start max_batch p a = rw a (
      bind-Ends (double attempt (suc max_batch) max_batch start start) (
        double-Ends (suc max_batch) max_batch start start a p (omega arith) (inl refl)
          (omega arith)))
    where
      bind-Ends :
          (m : Outcome Bracket)
          → Ends m (Bracketed max_batch start)
          → Ends (m >>= narrow attempt) (Found start max_batch)
      bind-Ends (ok b) h = narrow-Ends start max_batch b p h
      bind-Ends (raised run_failed) h = h
      bind-Ends (raised does_not_fit_at_start) h = h
      bind-Ends (raised diverges) h = h

  -- If just the sizes up to a capacity fit, and the others run out of memory, then from a positive
  -- `start` that fits `find_max_batch_size` returns the capacity, or a size above `max_batch` that is
  -- at most the capacity.
  pub find_max_batch_size-capacity :
      (capacity start max_batch : ℕ)
      → ((batch : ℕ) → fits attempt batch ≡ ok (leb batch capacity))
      → 0 < start
      → start ≤ capacity
      → (r : ℕ) × (find_max_batch_size attempt start max_batch ≡ ok r)
        × ((r ≡ capacity) ⊎ (max_batch < r) × (r < capacity))
  find_max_batch_size-capacity capacity start max_batch f p h =
      conclude (find_max_batch_size attempt start max_batch)
        (find_max_batch_size_lem start max_batch p (f start ∙ ground arith))
    where
      conclude :
          (m : Outcome ℕ)
          → Ends m (Found start max_batch)
          → (r : ℕ) × (m ≡ ok r) × ((r ≡ capacity) ⊎ (max_batch < r) × (r < capacity))
      conclude (ok r) (a, b, c, d) = (r, refl, ground (arith, f r, a, c, f (r + 1)))
      conclude (raised run_failed) (batch, e) = absurd (ground (arith, f batch, e))
      conclude (raised does_not_fit_at_start) e = absurd e
      conclude (raised diverges) e = absurd e
