-- ===== src/Writer/H5.antt =====
-- The part of h5py that the writer and the loader call: datasets of rows.
-- h5py is not in the repository, so this is an interface, and `IsLawful` and `IsFixed` are the
-- behaviour that h5py documents.
use graph_extraction.Base.{ℕ, ◌-◌, ◌≤◌, ◌≡◌, Option, none, some, List, length}
use graph_extraction.Base.Slices.{splice}

pub record H5 (V : Type 0) : Type 1 where
  -- A per-row shape and a dtype.
  pub Spec : Type 0
  pub Dset : Type 0
  -- `create_dataset(name, shape=(capacity, *shape), dtype=dtype)`
  pub create : Spec → ℕ → Dset
  -- `dset[:]`
  pub rows : Dset → List V
  -- `dset[a:b] = xs`; `none` is an exception.
  pub assign : Dset → ℕ → ℕ → List V → Option Dset
  -- `dset.resize((n, *dset.shape[1:]))`; `none` is an exception.
  pub resize : Dset → ℕ → Option Dset

pub record IsLawful {V : Type 0} (H : H5 V) : Type 0 where
  pub length-create : (s : H.Spec) (n : ℕ) → length (H.rows (H.create s n)) ≡ n
  pub assign_in_range :
      (d : H.Dset) (a b : ℕ) (xs : List V)
      → a ≤ b
      → b ≤ length (H.rows d)
      → length xs ≡ b - a
      → (d' : H.Dset) × (H.assign d a b xs ≡ some d') × (H.rows d' ≡ splice a b xs (H.rows d))

-- A dataset created with neither `chunks` nor `maxshape` cannot be resized, and the writer creates
-- no other.
pub record IsFixed {V : Type 0} (H : H5 V) : Type 0 where
  pub resize-none : (d : H.Dset) (n : ℕ) → H.resize d n ≡ none
