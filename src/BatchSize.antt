-- ===== src/BatchSize.antt =====
-- scripts/helper/find_max_batch_size.py: the search for the largest batch that fits on a node.
pub mod Laws
mod Tests
use Prim.Native.String
use graph_extraction.Base.{
  ℕ, zero, suc, ◌+◌, ◌-◌, ◌*◌, ◌/◌, String, Bool, true, false, ◌||◌, Option, none, some, leb, ltb,
  if◌then◌else◌,
}
use text.Mathlib.Text.{starts_with}

-- What a forward pass at a batch size comes to: it ends, or raises a `RuntimeError` with this
-- message and this class name, or raises something else.
pub data Attempt : Type 0 where
  completes : Attempt
  runtime_error : String → String → Attempt
  other_error : Attempt

-- `pattern in text`
unfoldable pub contains : String → String → Bool
contains String.[] pattern = starts_with "" pattern
contains (String.◌∷◌ c s) pattern = starts_with (String.◌∷◌ c s) pattern || contains s pattern

unfoldable pub is_oom_error : String → String → Bool
unfolding contains
is_oom_error msg type_name =
    contains msg "Failed to allocate memory" || contains type_name "OutOfMemoryError"

pub data Error : Type 0 where
  -- What the forward pass raised.
  run_failed : Error
  does_not_fit_at_start : Error
  -- The loop does not end.
  diverges : Error

pub data Outcome (A : Type 0) : Type 0 where
  ok : A → Outcome A
  raised : Error → Outcome A

infixl 5 ◌>>=◌
abbrev pub ◌>>=◌ : {A B : Type 0} → Outcome A → (A → Outcome B) → Outcome B
ok a >>= f = f a
raised e >>= f = raised e

-- The last size that fits, and the first found that does not.
pub record Bracket : Type 0 where
  pub lo : ℕ
  pub hi : Option ℕ

-- `attempt batch` is the export and the forward pass at a batch size.
module _ (attempt : ℕ → Attempt) where
  abbrev pub judge : Attempt → Outcome Bool
  judge completes = ok true
  judge (runtime_error msg type_name) =
      if is_oom_error msg type_name then ok false else raised run_failed
  judge other_error = raised run_failed

  unfoldable pub fits : ℕ → Outcome Bool
  unfolding is_oom_error
  fits batch = judge (attempt batch)

  -- `while probe <= max_batch`, for at most so many rounds.
  unfoldable pub double : ℕ → ℕ → ℕ → ℕ → Outcome Bracket
  double zero max_batch lo probe =
      if leb probe max_batch then raised diverges else ok (record { lo = lo; hi = none })
  double (suc fuel) max_batch lo probe =
      let round : Outcome Bracket = fits (probe * 2) >>= λ fit.
      if fit
      then double fuel max_batch (probe * 2) (probe * 2)
      else ok (record { lo = lo; hi = some (probe * 2) }) in
      if leb probe max_batch then round else ok (record { lo = lo; hi = none })

  -- `while hi - lo > 1`, for at most so many rounds.
  unfoldable pub bisect : ℕ → ℕ → ℕ → Outcome ℕ
  bisect zero lo hi = if ltb 1 (hi - lo) then raised diverges else ok lo
  bisect (suc fuel) lo hi =
      let mid = (lo + hi) / 2 in
      let round : Outcome ℕ =
        fits mid >>= λ fit. if fit then bisect fuel mid hi else bisect fuel lo mid in
      if ltb 1 (hi - lo) then round else ok lo

  abbrev pub narrow : Bracket → Outcome ℕ
  narrow b = elim b.hi [ none ↦ ok b.lo | some hi ↦ bisect (hi - b.lo) b.lo hi ]

  unfoldable pub find_max_batch_size : ℕ → ℕ → Outcome ℕ
  unfolding double bisect fits
  find_max_batch_size start max_batch = fits start >>= λ fit.
      if fit
      then double (suc max_batch) max_batch start start >>= narrow
      else raised does_not_fit_at_start
