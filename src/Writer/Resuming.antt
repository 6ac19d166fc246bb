-- ===== src/Writer/Resuming.antt =====
-- `__post_init__` on a sound disk gives a valid writer that stands behind what is recorded.
use graph_extraction.Base.{
  ℕ, ◌≡◌, ◌⊎◌, inl, inr, refl, sym, ◌∙◌, subst, String, Option, Option-cases, none, some, List, [],
  length, get_last?, leb, if◌then◌else◌, true, false, arith,
}
use graph_extraction.Base.Dict.{Files}
use graph_extraction.Writer.H5.{H5}
use graph_extraction.Writer.State.{Config, File, Progress, World, Writer, Entry}
use graph_extraction.Writer.Steps.{
  first_missing, load_progress, save_progress, drop_shards_missing_locally,
  discard_unfinished_shards, place_cursor, loaded_writer, init, row_end_of,
}
use graph_extraction.Writer.Shards.{
  Shards, Shards-irrelevant, Shards-present_prefix, Shards-first_missing-none, Shards-get_last?,
  Shards-get_last?-none, Shards-prefix_le,
}
use graph_extraction.Writer.Invariant.{IsSound, IsDurable, IsStored, IsValid, IsOpenOk}

module _ {V : Type 0} (H : H5 V) (cfg : Config H) (g : String → ℕ → V) where
  row_end_of-get_last? :
      (m s : Files (File H)) (es : List Entry) (z : ℕ)
      → Shards H cfg.schema g true m s 0 0 es z
      → row_end_of H (get_last? es) ≡ z
  row_end_of-get_last? m s es z h = elim (Option-cases (get_last? es)) [
    | inl e ↦ rw e (sym (Shards-get_last?-none H cfg.schema g true m s 0 0 es z h e))
    | inr (x, e) ↦ rw e (Shards-get_last? H cfg.schema g true m s 0 0 es z x h e)
  ]

  abbrev IsSaved : Option (Progress H) → Progress H → Type 0
  IsSaved file p = (file ≡ some p) ⊎ (file ≡ none) × (p.completed_shards ≡ [])

  drop-IsStored :
      (d : World H) (p : Progress H)
      → IsSound H cfg g d.scratch d.store p
      → IsSaved d.progress_file p
      → (z : ℕ) × IsStored H cfg g z (drop_shards_missing_locally H (loaded_writer H d p))
        × ((drop_shards_missing_locally H (loaded_writer H d p)).cur_h5 ≡ none)
  unfolding drop_shards_missing_locally save_progress
  drop-IsStored d p h saved = elim (Option-cases (first_missing d.scratch p.completed_shards)) [
    | inl e ↦ rw e (
      h.z,
      record {
        shards =
            Shards-first_missing-none H cfg.schema g d.scratch d.store 0 0 p.completed_shards h.z
              h.shards e;
        pending = tt;
        bounded = h.bounded;
        reached = h.reached;
        same_n = h.same_n;
        same_schema = h.same_schema;
        saved = saved;
      },
      refl,
    )
    | inr (x, e) ↦ rw e (
      x.row_start,
      record {
        shards =
            Shards-present_prefix H cfg.schema g d.scratch d.store 0 0 p.completed_shards h.z x
              h.shards e;
        pending = tt;
        bounded = omega (
          arith,
          Shards-prefix_le H cfg.schema g d.scratch d.store 0 0 p.completed_shards h.z x h.shards e,
          h.bounded,
        );
        reached = refl;
        same_n = h.same_n;
        same_schema = h.same_schema;
        saved = inl refl;
      },
      refl,
    )
  ]

  resume-IsValid :
      (z : ℕ) (w : Writer H)
      → IsStored H cfg g z w
      → w.cur_h5 ≡ none
      → IsValid H cfg g (discard_unfinished_shards H (place_cursor H w))
  unfolding discard_unfinished_shards place_cursor
  resume-IsValid z w h e =
      let n = length w.progress.completed_shards in
      let start : row_end_of H (get_last? w.progress.completed_shards) ≡ z =
        row_end_of-get_last? w.scratch w.store w.progress.completed_shards z h.shards in
      let m : Files (File H) = λ i. if leb n i then none else w.scratch i in
      record {
        stored = record {
          shards =
              subst (Shards H cfg.schema g true m w.store 0 0 w.progress.completed_shards)
                (sym start)
                (Shards-irrelevant H cfg.schema g true w.scratch w.store m w.store 0 0
                  w.progress.completed_shards z
                  (λ j x y. let t : leb n j ≡ false = ground arith in rw t) (λ j x y. refl)
                  h.shards);
          pending = h.pending;
          bounded = omega (arith, h.bounded);
          reached = h.reached ∙ sym start;
          same_n = h.same_n;
          same_schema = h.same_schema;
          saved = h.saved;
        };
        numbered = refl;
        low = omega arith;
        high = omega (arith, h.bounded);
        open_file =
            let s0 = row_end_of H (get_last? w.progress.completed_shards) in
            subst (IsOpenOk H cfg g s0 s0) (sym e) refl;
      }

  -- The fresh progress of a first run promises nothing.
  fresh-IsSound : (m s : Files (File H)) → IsSound H cfg g m s (load_progress H cfg none)
  unfolding load_progress
  fresh-IsSound m s = record {
    z = 0;
    shards = refl;
    bounded = omega arith;
    reached = refl;
    same_n = refl;
    same_schema = refl;
  }

  -- The progress that is loaded promises only what is there.
  load_progress-IsSound :
      (d : World H) (o : Option (Progress H))
      → d.progress_file ≡ o
      → IsDurable H cfg g d
      → IsSound H cfg g d.scratch d.store (load_progress H cfg o)
        × IsSaved d.progress_file (load_progress H cfg o)
  unfolding load_progress
  load_progress-IsSound d none e h = (fresh-IsSound d.scratch d.store, inr (e, refl))
  load_progress-IsSound d (some p) e h = (h p e, inl e)

  -- Started on a sound disk, whatever is missing from scratch or left over there, the writer is
  -- valid.
  pub init-IsValid : (d : World H) → IsDurable H cfg g d → IsValid H cfg g (init H cfg d)
  unfolding init
  init-IsValid d h =
      let (sound, saved) = load_progress-IsSound d d.progress_file refl h in
      let (z, stored, e) = drop-IsStored d (load_progress H cfg d.progress_file) sound saved in
      resume-IsValid z _ stored e
