-- ===== src/Writer/Sample.antt =====
-- A model of h5py whose datasets are lists, a backend whose uploads succeed, and a small layer: what
-- the theorems are tried on.
use graph_extraction.Base.{
  ℕ, ◌+◌, ◌-◌, ◌≡◌, refl, String, Bool, true, false, ◌&&◌, Option, none, some, List, [], ◌∷◌,
  length, replicate, length-replicate, leb, ◌==◌, str_eq, if◌then◌else◌, arith, eq_iff, Bool-cases,
  inl, inr,
}
use graph_extraction.Base.Dict.{Dict, update, lookup}
use graph_extraction.Base.Slices.{splice, seg}
use graph_extraction.Writer.H5.{H5, IsLawful, IsFixed}
use graph_extraction.Writer.Transport.{Disk, uploaded, Transport, IsReliable}
use graph_extraction.Writer.Filling.{IsBlock}
use graph_extraction.Writer.State.{Config, World}

-- Fixed-size datasets of numbers.
abbrev pub lists : H5 ℕ
lists = record {
  Spec = String;
  Dset = List ℕ;
  create = λ s n. replicate n 0;
  rows = λ d. d;
  assign = λ d a b xs.
      if leb a b && (leb b (length d) && (length xs == (b - a)))
      then some (splice a b xs d)
      else none;
  resize = λ d n. none;
}

pub lists-IsLawful : IsLawful lists
lists-IsLawful = record {
  length-create = λ s n. length-replicate n 0;
  assign_in_range = λ d a b xs h k e. (splice a b xs d, ground arith, refl);
}

pub lists-IsFixed : IsFixed lists
lists-IsFixed = record { resize-none = λ d n. refl }

-- A backend whose uploads and pulls all succeed where the file is there.
abbrev after_push : {F : Type 0} → Bool → ℕ → ℕ → Disk F → Option F → Option (Disk F)
after_push auto_delete l v d none = none
after_push auto_delete l v d (some f) = some (uploaded auto_delete l v f d)

abbrev after_pull : {F : Type 0} → ℕ → Disk F → Option F → Option F → Option (F × Disk F)
after_pull v d (some f) o = some (f, d)
after_pull v d none none = none
after_pull v d none (some f) = some (f, record d { scratch = update d.scratch v (some f) })

abbrev pub steady : {F : Type 0} → Transport F
steady = record {
  push = λ ticket force auto_delete l v d. after_push auto_delete l v d (d.scratch l);
  ensure_local = λ v d. after_pull v d (d.scratch v) (d.store v);
}

after_push-some :
    {F : Type 0} (auto_delete : Bool) (l v : ℕ) (d d' : Disk F) (o : Option F)
    → after_push auto_delete l v d o ≡ some d'
    → (f : F) × (o ≡ some f) × (d' ≡ uploaded auto_delete l v f d)
after_push-some auto_delete l v d d' none h = absurd (ground arith)
after_push-some auto_delete l v d d' (some f) h = (f, refl, ground arith)

pub steady-IsReliable : {F : Type 0} → IsReliable (steady {F = F})
steady-IsReliable = record {
  push-some =
      λ ticket force auto_delete l v d d' h. after_push-some auto_delete l v d d' (d.scratch l) h;
  ensure_local_present = λ v d f e. rw e;
  ensure_local_pulled = λ v d f e x. rw (e, x);
}

-- Five rows of two datasets, in shards of two rows.
abbrev pub config : Config lists
config = record {
  n_rows = 5;
  schema = ("x", "float32") ∷ ("k", "float32") ∷ [];
  shard_rows = 2;
  flush_every = 20;
  attrs = [];
  no_push = false;
  defer_push = false;
  force_push = false;
  auto_delete = true;
  max_in_flight = 1;
}

abbrev pub value : String → ℕ → ℕ
value name i = if str_eq name "x" then i else 100 + i

abbrev pub block : ℕ → ℕ → Dict (List ℕ)
block a b = ("k", seg (value "k") a (b - a)) ∷ ("x", seg (value "x") a (b - a)) ∷ []

abbrev pub empty_world : World lists
empty_world = record {
  scratch = λ i. none;
  store = λ i. none;
  progress_file = none;
  manifest_file = none;
}

pub block-IsBlock : (a b : ℕ) → IsBlock lists config value a b (block a b)
unfolding lookup
block-IsBlock a b = record {
  distinct = (refl, (refl, tt));
  covers = λ name spec e. ground (arith, eq_iff "x" name, eq_iff "k" name, eq_iff "x" "k", e);
  named = λ name arr e. named_by name arr e;
}
  where
    named_by :
        (name : String) (arr : List ℕ)
        → lookup name (block a b) ≡ some arr
        → (spec : String) × (lookup name config.schema ≡ some spec)
    named_by name arr e = elim (Bool-cases (str_eq "x" name)) [
      | inl x ↦ ("float32", rw x)
      | inr x ↦ elim (Bool-cases (str_eq "k" name)) [
        | inl k ↦ ("float32", rw (x, k))
        | inr k ↦ absurd (ground (arith, e, x, k))
      ]
    ]
