-- ===== src/Writer/Runs.antt =====
-- Runs of the program over one layer: processes that start, write blocks, close, fail or are
-- killed, and what happens to the disk in between.
use graph_extraction.Base.{
  ℕ, ◌≤◌, ◌<◌, ◌≡◌, ◌⊎◌, inl, inr, refl, sym, ap, ◌∙◌, subst, String, Bool, true, false, Option,
  none, some, List, [], ◌∷◌, length, suc, All, if◌then◌else◌, ◌==◌, Bool-cases, arith,
}
use graph_extraction.Base.Dict.{Dict, Files, update, update_ne}
use graph_extraction.Writer.H5.{H5, IsLawful}
use graph_extraction.Writer.Transport.{Transport, IsReliable}
use graph_extraction.Writer.State.{
  Outcome, ok, raised, Entry, Config, File, Progress, World, Writer, world, state,
}
use graph_extraction.Writer.Steps.{init}
use graph_extraction.Writer.Rows.{write_rows}
use graph_extraction.Writer.Lifecycle.{close, load_shard_rows, loaded}
use graph_extraction.Writer.Shards.{Shards, Shards-irrelevant}
use graph_extraction.Writer.Invariant.{
  IsDurable, IsStored, IsStored-IsDurable, IsValid, IsOpenOk, Ensures, Ensures-mono,
}
use graph_extraction.Writer.Filling.{IsBlock}
use graph_extraction.Writer.Writing.{At, write_rows-Ensures}
use graph_extraction.Writer.Resuming.{init-IsValid}
use graph_extraction.Writer.Finishing.{IsFinished, close-Ensures, all_rows-closed}
use graph_extraction.Writer.Loading.{InSchema, rows_up_to, load_shard_rows-Shards}

module _ {V : Type 0} (H : H5 V) (cfg : Config H) (g : String → ℕ → V) where
  -- A process at work, or the disk with no process.
  pub data Session : Type 0 where
    alive : Writer H → Session
    down : World H → Session

  -- A method that raises ends its process.
  abbrev pub after : Outcome (Writer H) → Session
  after (ok w) = alive w
  after (raised e w) = down (world H w)

  -- The shards that the progress JSON records.
  abbrev pub recorded : Option (Progress H) → ℕ
  recorded none = 0
  recorded (some p) = length p.completed_shards

  module _ (T : Transport (File H)) where
    pub data Step : Session → Session → Type 0 where
      start : (d : World H) → Step (down d) (alive (init H cfg d))
      write :
          (w : Writer H) (b : ℕ) (arrs : Dict (List V))
          → w.next_row < b
          → b ≤ cfg.n_rows
          → IsBlock H cfg g w.next_row b arrs
          → Step (alive w) (after (write_rows H T cfg w.next_row b arrs w))
      finish :
          (w : Writer H)
          → w.next_row ≡ cfg.n_rows
          → Step (alive w) (down (world H (state (close H T cfg w))))
      kill : (w : Writer H) → Step (alive w) (down (world H w))
      -- A file of scratch is lost.
      lose :
          (d : World H) (i : ℕ)
          → Step (down d) (down (record d { scratch = update d.scratch i none }))
      -- A file past the recorded shards is torn, written or left over.
      stray :
          (d : World H) (i : ℕ) (o : Option (File H))
          → recorded d.progress_file ≤ i
          → Step (down d) (down (record d { scratch = update d.scratch i o }))
      -- An upload ended whose process could not note it.
      late :
          (d : World H) (i : ℕ) (f : File H) (auto_delete : Bool)
          → d.scratch i ≡ some f
          → Step (down d) (
              down (record d {
                scratch = if auto_delete then update d.scratch i none else d.scratch;
                store = update d.store i (some f);
              }))

    pub data Reach (s : Session) : Session → Type 0 where
      here : Reach s s
      next : {t u : Session} → Reach s t → Step t u → Reach s u

  -- Losing files, and uploading others, keeps a disk sound.
  Shards-mishap :
      (m s m' s' : Files (File H)) (i a : ℕ) (es : List Entry) (z : ℕ)
      → ((j : ℕ) → (m' j ≡ none) ⊎ (m' j ≡ m j))
      → ((j : ℕ) → (s' j ≡ s j) ⊎ (f : File H) × (s' j ≡ some f) × (m j ≡ some f))
      → Shards H cfg.schema g false m s i a es z
      → Shards H cfg.schema g false m' s' i a es z
  Shards-mishap m s m' s' i a [] z p q h = h
  Shards-mishap m s m' s' i a (e ∷ es) z p q h = (
    record {
      idx = h.0.idx;
      path = h.0.path;
      start = h.0.start;
      nonempty = h.0.nonempty;
      on_scratch = λ f x. elim (p i) [
        | inl gone ↦ absurd (ground arith)
        | inr same ↦ h.0.on_scratch f (sym same ∙ x)
      ];
      in_store = λ x. elim (q i) [
        | inl same ↦ let (f, y, good) = h.0.in_store x in (f, same ∙ y, good)
        | inr (f, y, z) ↦ (f, y, h.0.on_scratch f z)
      ];
      present = λ t _. absurd (false_ne t);
    },
    Shards-mishap m s m' s' (suc i) e.row_end es z p q h.1,
  )
    where
      false_ne : false ≡ true → ⊥
      false_ne t = cc

  IsDurable-mishap :
      (d : World H) (m' s' : Files (File H))
      → ((j : ℕ) → (m' j ≡ none) ⊎ (m' j ≡ d.scratch j))
      → ((j : ℕ) → (s' j ≡ d.store j) ⊎ (f : File H) × (s' j ≡ some f) × (d.scratch j ≡ some f))
      → IsDurable H cfg g d
      → IsDurable H cfg g (record d { scratch = m'; store = s' })
  IsDurable-mishap d m' s' p q h x e =
      let k = h x e in
      record {
        z = k.z;
        shards = Shards-mishap d.scratch d.store m' s' 0 0 x.completed_shards k.z p q k.shards;
        bounded = k.bounded;
        reached = k.reached;
        same_n = k.same_n;
        same_schema = k.same_schema;
      }

  update-none :
      (m : Files (File H)) (i j : ℕ) → (update m i none j ≡ none) ⊎ (update m i none j ≡ m j)
  update-none m i j = elim (Bool-cases (i == j)) [ inl e ↦ inl (rw e) | inr e ↦ inr (rw e) ]

  deleted :
      (b : Bool) (m : Files (File H)) (i j : ℕ)
      → ((if b then update m i none else m) j ≡ none) ⊎ ((if b then update m i none else m) j ≡ m j)
  deleted true m i j = update-none m i j
  deleted false m i j = inr refl

  stored_late :
      (m s : Files (File H)) (i : ℕ) (f : File H) (j : ℕ)
      → m i ≡ some f
      → (update s i (some f) j ≡ s j)
        ⊎ (f' : File H) × (update s i (some f) j ≡ some f') × (m j ≡ some f')
  stored_late m s i f j e = elim (Bool-cases (i == j)) [
    | inl t ↦ inr (f, rw t, (let q : i ≡ j = ground arith in ap m (sym q) ∙ e))
    | inr t ↦ inl (rw t)
  ]

  IsDurable-stray :
      (d : World H) (i : ℕ) (o : Option (File H))
      → recorded d.progress_file ≤ i
      → IsDurable H cfg g d
      → IsDurable H cfg g (record d { scratch = update d.scratch i o })
  IsDurable-stray d i o le h x e =
      let k = h x e in
      let le' : length x.completed_shards ≤ i = subst (λ y. recorded y ≤ i) e le in
      record {
        z = k.z;
        shards =
            Shards-irrelevant H cfg.schema g false d.scratch d.store (update d.scratch i o) d.store
              0 0 x.completed_shards k.z
              (λ j a b. update_ne d.scratch i j o (λ t. absurd (omega arith))) (λ j a b. refl)
              k.shards;
        bounded = k.bounded;
        reached = k.reached;
        same_n = k.same_n;
        same_schema = k.same_schema;
      }

  -- What holds of every session.
  abbrev pub IsGood : Session → Type 0
  IsGood (alive w) = IsValid H cfg g w
  IsGood (down d) = IsDurable H cfg g d

  module _ (L : IsLawful H) (positive : 0 < cfg.shard_rows) (T : Transport (File H))
      (R : IsReliable T) (room : 0 < cfg.max_in_flight) where
    Ensures-IsGood :
        (n : ℕ) (r : Outcome (Writer H))
        → Ensures H cfg g (At H cfg g L positive T R room n) r
        → IsGood (after r)
    Ensures-IsGood n (ok w) h = h.0
    Ensures-IsGood n (raised e w) h = h.1

    finished-IsDurable :
        (z : ℕ) (r : Outcome (Writer H))
        → Ensures H cfg g (IsFinished H cfg g T R room z) r
        → IsDurable H cfg g (world H (state r))
    finished-IsDurable z (ok w) h = IsStored-IsDurable H cfg g z w h.1
    finished-IsDurable z (raised e w) h = h.1

    close_all-Ensures :
        (w : Writer H)
        → IsValid H cfg g w
        → w.next_row ≡ cfg.n_rows
        → Ensures H cfg g (IsFinished H cfg g T R room cfg.n_rows) (close H T cfg w)
    close_all-Ensures w v n =
        let e = all_rows-closed H cfg g T R room w v n in
        let same : w.next_row ≡ w.cur_shard_start =
          subst (IsOpenOk H cfg g w.cur_shard_start w.next_row) e v.open_file in
        close-Ensures H cfg g T R room cfg.n_rows w e
          (subst (λ z. IsStored H cfg g z w) (sym same ∙ n) v.stored) n

    Step-IsGood : {s t : Session} → Step T s t → IsGood s → IsGood t
    Step-IsGood (start d) h = init-IsValid H cfg g d h
    Step-IsGood (write w b arrs lt le block) v =
        Ensures-IsGood b _
          (write_rows-Ensures H cfg g L positive T R room w.next_row b arrs block le w v refl lt)
    Step-IsGood (finish w n) v = finished-IsDurable cfg.n_rows _ (close_all-Ensures w v n)
    Step-IsGood (kill w) v = IsStored-IsDurable H cfg g w.cur_shard_start w v.stored
    Step-IsGood (lose d i) h =
        IsDurable-mishap d (update d.scratch i none) d.store (update-none d.scratch i)
          (λ j. inl refl) h
    Step-IsGood (stray d i o le) h = IsDurable-stray d i o le h
    Step-IsGood (late d i f b e) h =
        IsDurable-mishap d _ _ (deleted b d.scratch i) (λ j. stored_late d.scratch d.store i f j e)
          h

    -- From a session that is good, every session that can be reached is good: a process at work is
    -- valid, and the disk it leaves when it ends, however it ends, is sound, also after files of
    -- scratch were lost, leftovers were written past the recorded shards, and uploads ended late.
    pub Reach-IsGood : {s t : Session} → Reach T s t → IsGood s → IsGood t
    Reach-IsGood here h = h
    Reach-IsGood (next r st) h = Step-IsGood st (Reach-IsGood r h)

    -- However the processes before it ended and whatever scratch files were lost, a process that
    -- has come to the last row and closes the writer either fails in an upload, or leaves a
    -- disk from which `load_shard_rows` reads every row of every dataset asked for, in order.
    pub run-load_shard_rows :
        (d : World H) (w : Writer H) (n : String) (ns : List String)
        → d.progress_file ≡ none
        → Reach T (down d) (alive w)
        → w.next_row ≡ cfg.n_rows
        → 0 < cfg.n_rows
        → All (InSchema H cfg.schema g) (n ∷ ns)
        → Ensures H cfg g
            (λ w'.
              load_shard_rows H T (some (n ∷ ns)) (world H w')
              ≡ loaded (rows_up_to H cfg.schema g (n ∷ ns) cfg.n_rows))
            (close H T cfg w)
    run-load_shard_rows d w n ns e r last pos known =
        let v = Reach-IsGood r (λ p x. absurd (ground (arith, e, x))) in
        Ensures-mono H cfg g (IsFinished H cfg g T R room cfg.n_rows) _ (close H T cfg w)
          (close_all-Ensures w v last)
          (λ w' x.
            load_shard_rows-Shards H cfg.schema g T R n ns x.0.manifest.shards cfg.n_rows
              (world H w') x.0.manifest x.0.written refl pos known x.0.shards)
