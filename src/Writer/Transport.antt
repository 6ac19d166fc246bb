-- ===== src/Writer/Transport.antt =====
-- What the writer and the loader use of a backend (execute/node_relay.py or
-- execute/remote_storage.py): an upload through the pusher, and `ensure_local`. Files are named by
-- their shard's number: under the layer's scratch directory, and under `<layer_key>/` in the store.
use graph_extraction.Base.{ℕ, ◌≡◌, Bool, Option, none, some, if◌then◌else◌}
use graph_extraction.Base.Dict.{Files, update}

pub record Disk (F : Type 0) : Type 0 where
  pub scratch : Files F
  pub store : Files F

-- The disk after the file `f` at `local` has reached the store under `remote`.
abbrev pub uploaded : {F : Type 0} → Bool → ℕ → ℕ → F → Disk F → Disk F
uploaded auto_delete local remote f d = record {
  scratch = if auto_delete then update d.scratch local none else d.scratch;
  store = update d.store remote (some f);
}

pub record Transport (F : Type 0) : Type 0 where
  -- Runs upload number `ticket` to its end; `none` is an exception from `future.result()`.
  pub push : (ticket : ℕ) (force auto_delete : Bool) (local remote : ℕ) → Disk F → Option (Disk F)
  -- `none` is an exception; else the file at the path that is returned, and the disk.
  pub ensure_local : ℕ → Disk F → Option (F × Disk F)

pub record IsReliable {F : Type 0} (T : Transport F) : Type 0 where
  pub push-some :
      (ticket : ℕ) (force auto_delete : Bool) (local remote : ℕ) (d d' : Disk F)
      → T.push ticket force auto_delete local remote d ≡ some d'
      → (f : F) × (d.scratch local ≡ some f) × (d' ≡ uploaded auto_delete local remote f d)
  -- A copy on scratch is used as it is.
  pub ensure_local_present :
      (v : ℕ) (d : Disk F) (f : F) → d.scratch v ≡ some f → T.ensure_local v d ≡ some (f, d)
  pub ensure_local_pulled :
      (v : ℕ) (d : Disk F) (f : F)
      → d.scratch v ≡ none
      → d.store v ≡ some f
      → T.ensure_local v d ≡ some (f, record d { scratch = update d.scratch v (some f) })

-- A backend whose loader finds some files in the project's tree, and uses them where they are.
pub record IsBackend {F : Type 0} (copies : Files F) (T : Transport F) : Type 0 where
  pub push-some :
      (ticket : ℕ) (force auto_delete : Bool) (local remote : ℕ) (d d' : Disk F)
      → T.push ticket force auto_delete local remote d ≡ some d'
      → (f : F) × (d.scratch local ≡ some f) × (d' ≡ uploaded auto_delete local remote f d)
  pub ensure_local_present :
      (v : ℕ) (d : Disk F) (f : F) → d.scratch v ≡ some f → T.ensure_local v d ≡ some (f, d)
  pub ensure_local_copied :
      (v : ℕ) (d : Disk F) (f : F)
      → d.scratch v ≡ none
      → copies v ≡ some f
      → T.ensure_local v d ≡ some (f, d)
  pub ensure_local_pulled :
      (v : ℕ) (d : Disk F) (f : F)
      → d.scratch v ≡ none
      → copies v ≡ none
      → d.store v ≡ some f
      → T.ensure_local v d ≡ some (f, record d { scratch = update d.scratch v (some f) })
  pub ensure_local_missing :
      (v : ℕ) (d : Disk F)
      → d.scratch v ≡ none
      → copies v ≡ none
      → d.store v ≡ none
      → T.ensure_local v d ≡ none

-- Without such files it is reliable.
pub IsBackend-IsReliable :
    {F : Type 0} (copies : Files F) (T : Transport F)
    → IsBackend copies T
    → ((v : ℕ) → copies v ≡ none)
    → IsReliable T
IsBackend-IsReliable copies T B nowhere = record {
  push-some = B.push-some;
  ensure_local_present = B.ensure_local_present;
  ensure_local_pulled = λ v d f x y. B.ensure_local_pulled v d f x (nowhere v) y;
}
