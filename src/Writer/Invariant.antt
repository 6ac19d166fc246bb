-- ===== src/Writer/Invariant.antt =====
-- What holds of a writer between two calls, and of the disk whenever the process may stop.
use graph_extraction.Base.{
  ℕ, ◌+◌, ◌-◌, ◌≤◌, ◌<◌, min, ◌≡◌, ◌⊎◌, inl, inr, subst, String, Option, none, some, List, [], ◌∷◌,
  suc, length, take, All, true, false, arith,
}
use graph_extraction.Base.Dict.{lookup, Files}
use graph_extraction.Base.Slices.{seg}
use graph_extraction.Writer.H5.{H5}
use graph_extraction.Writer.State.{
  upload_error, Outcome, ok, raised, ◌>>=◌, Entry, Upload, Config, File, Progress, World, Writer,
  world,
}
use graph_extraction.Writer.Shards.{Shards, rows_of}

-- The arguments of an upload name one completed shard.
abbrev pub NamesShard : ℕ → Upload → Type 0
NamesShard n u = (u.local_path ≡ u.position) × (u.virtual_path ≡ u.position) × (u.position < n)

module _ {V : Type 0} (H : H5 V) (cfg : Config H) (g : String → ℕ → V) where
  -- A progress JSON and the files that it promises: the first `z` rows are recorded.
  pub record IsSound (m s : Files (File H)) (p : Progress H) : Type 0 where
    pub z : ℕ
    pub shards : Shards H cfg.schema g false m s 0 0 p.completed_shards z
    pub bounded : z ≤ cfg.n_rows
    pub reached : p.next_row ≡ z
    pub same_n : p.n_rows ≡ cfg.n_rows
    pub same_schema : p.schema ≡ cfg.schema

  -- A process that starts on this disk resumes rightly.
  abbrev pub IsDurable : World H → Type 0
  IsDurable d = (p : Progress H) → d.progress_file ≡ some p → IsSound d.scratch d.store p

  -- The shards recorded so far end at row `z`.
  pub record IsStored (z : ℕ) (w : Writer H) : Type 0 where
    pub shards : Shards H cfg.schema g true w.scratch w.store 0 0 w.progress.completed_shards z
    pub pending : All (NamesShard (length w.progress.completed_shards)) w.pending_uploads
    pub bounded : z ≤ cfg.n_rows
    pub reached : w.progress.next_row ≡ z
    pub same_n : w.progress.n_rows ≡ cfg.n_rows
    pub same_schema : w.progress.schema ≡ cfg.schema
    pub saved :
        (w.progress_file ≡ some w.progress)
        ⊎ (w.progress_file ≡ none) × (w.progress.completed_shards ≡ [])

  -- The open file has room for `capacity` rows and holds the first `n` rows of its shard.
  pub record IsFilled (start n capacity : ℕ) (f : File H) : Type 0 where
    pub same_start : f.row_start ≡ start
    pub same_end : f.row_end ≡ start + capacity
    pub dataset :
        (name : String) (spec : H.Spec)
        → lookup name cfg.schema ≡ some spec
        → (xs : List V) × (rows_of H f name ≡ some xs)
          × (length xs ≡ capacity)
          × (take n xs ≡ seg (g name) start n)

  abbrev pub capacity_from : ℕ → ℕ
  capacity_from start = min cfg.shard_rows (cfg.n_rows - start)

  abbrev pub IsOpenOk : ℕ → ℕ → Option (File H) → Type 0
  IsOpenOk start next none = next ≡ start
  IsOpenOk start next (some f) =
      (next < start + capacity_from start) × IsFilled start (next - start) (capacity_from start) f

  pub record IsValid (w : Writer H) : Type 0 where
    pub stored : IsStored w.cur_shard_start w
    pub numbered : w.cur_shard_idx ≡ length w.progress.completed_shards
    pub low : w.cur_shard_start ≤ w.next_row
    pub high : w.next_row ≤ cfg.n_rows
    pub open_file : IsOpenOk w.cur_shard_start w.next_row w.cur_h5

  -- A call returns with `P`, or raises for a failed upload and leaves a sound disk.
  abbrev pub Ensures : (Writer H → Type 0) → Outcome (Writer H) → Type 0
  Ensures P (ok w) = P w
  Ensures P (raised e w) = (e ≡ upload_error) × IsDurable (world H w)

  pub Ensures-bind :
      (P Q : Writer H → Type 0) (r : Outcome (Writer H)) (k : Writer H → Outcome (Writer H))
      → Ensures P r
      → ((w : Writer H) → P w → Ensures Q (k w))
      → Ensures Q (r >>= k)
  Ensures-bind P Q (ok w) k h f = f w h
  Ensures-bind P Q (raised e w) k h f = h

  pub Ensures-mono :
      (P Q : Writer H → Type 0) (r : Outcome (Writer H))
      → Ensures P r
      → ((w : Writer H) → P w → Q w)
      → Ensures Q r
  Ensures-mono P Q (ok w) h f = f w h
  Ensures-mono P Q (raised e w) h f = h

  -- Files that can be found are in particular right where they are there.
  pub Shards-any :
      (m s : Files (File H)) (i a : ℕ) (es : List Entry) (z : ℕ)
      → Shards H cfg.schema g true m s i a es z
      → Shards H cfg.schema g false m s i a es z
  Shards-any m s i a [] z h = h
  Shards-any m s i a (e ∷ es) z h = (
    record {
      idx = h.0.idx;
      path = h.0.path;
      start = h.0.start;
      nonempty = h.0.nonempty;
      on_scratch = h.0.on_scratch;
      in_store = h.0.in_store;
      present = λ t _. absurd (elim_false t);
    },
    Shards-any m s (suc i) e.row_end es z h.1,
  )
    where
      elim_false : false ≡ true → ⊥
      elim_false t = cc

  pub IsStored-IsDurable : (z : ℕ) (w : Writer H) → IsStored z w → IsDurable (world H w)
  IsStored-IsDurable z w h p q = elim h.saved [
    | inl e ↦
        let e' : w.progress ≡ p = ground arith in
        subst (IsSound w.scratch w.store) e' (record {
          z = z;
          shards = Shards-any w.scratch w.store 0 0 w.progress.completed_shards z h.shards;
          bounded = h.bounded;
          reached = h.reached;
          same_n = h.same_n;
          same_schema = h.same_schema;
        })
    | inr e ↦ absurd (cc (e.0))
  ]
