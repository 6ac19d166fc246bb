-- ===== src/Writer/Finishing.antt =====
-- `close`: deferred uploads, the last waits and the manifest; and a shard that is closed too early.
use graph_extraction.Base.{
  ℕ, suc, ◌+◌, ◌-◌, ◌≤◌, ◌<◌, ◌≡◌, refl, sym, ap, ◌∙◌, subst, String, Bool, true, false, ◌&&◌, not,
  Option-cases, inl, inr, none, some, List, [], ◌∷◌, length, leb, ltb, if◌then◌else◌, arith,
}
use graph_extraction.Base.Dict.{Dict, Files, lookup, lookup-cons}
use graph_extraction.Base.{eq_iff}
use graph_extraction.Writer.H5.{H5, IsFixed}
use graph_extraction.Writer.Transport.{Transport, IsReliable}
use graph_extraction.Writer.State.{
  type_error, ok, raised, ◌>>=◌, Entry, Config, File, Manifest, World, Writer, world,
}
use graph_extraction.Writer.Steps.{submit_upload, wait_pending_uploads}
use graph_extraction.Writer.Lifecycle.{
  resize_datasets, write_manifest, push_deferred, close_partial, close,
}
use graph_extraction.Writer.Shards.{Shards}
use graph_extraction.Writer.Filling.{rows_of-some}
use graph_extraction.Writer.Invariant.{
  IsStored, IsOpenOk, IsValid, Ensures, Ensures-bind, Ensures-mono,
}
use graph_extraction.Writer.Uploads.{
  IsUntouched-refl, IsUntouched-trans, Waited, submit_upload-Ensures, wait_pending_uploads-Ensures,
}

module _ {V : Type 0} (H : H5 V) (cfg : Config H) (g : String → ℕ → V) where
  -- The manifest lists the first `z` rows, and is marked complete if these are all.
  pub record IsPublished (z : ℕ) (d : World H) : Type 0 where
    pub manifest : Manifest H
    pub written : d.manifest_file ≡ some manifest
    pub next_row : manifest.next_row ≡ z
    pub same_n : manifest.n_rows ≡ cfg.n_rows
    pub complete : manifest.complete ≡ leb cfg.n_rows z
    pub shards : Shards H cfg.schema g true d.scratch d.store 0 0 manifest.shards z

  write_manifest-IsPublished :
      (z : ℕ) (w : Writer H)
      → IsStored H cfg g z w
      → IsPublished z (world H (write_manifest H w)) × IsStored H cfg g z (write_manifest H w)
  unfolding write_manifest
  write_manifest-IsPublished z w h = (
    record {
      manifest = _;
      written = refl;
      next_row = h.reached;
      same_n = h.same_n;
      complete = rw (h.same_n, h.reached);
      shards = h.shards;
    },
    record {
      shards = h.shards;
      pending = h.pending;
      bounded = h.bounded;
      reached = h.reached;
      same_n = h.same_n;
      same_schema = h.same_schema;
      saved = h.saved;
    },
  )

  module _ (T : Transport (File H)) (R : IsReliable T) (room : 0 < cfg.max_in_flight) where
    push_deferred-Ensures :
        (m s : Files (File H)) (i a : ℕ) (es : List Entry) (y z : ℕ) (w : Writer H)
        → Shards H cfg.schema g true m s i a es y
        → i + length es ≤ length w.progress.completed_shards
        → IsStored H cfg g z w
        → w.next_row ≡ z
        → Ensures H cfg g (Waited H cfg g T R z w) (push_deferred H T cfg i es w)
    unfolding push_deferred
    push_deferred-Ensures m s i a [] y z w k le h n = (h, IsUntouched-refl w)
    push_deferred-Ensures m s i a (e ∷ es) y z w k le h n =
        Ensures-bind H cfg g (Waited H cfg g T R z w) (Waited H cfg g T R z w)
          (if e.pushed then ok w else submit_upload H T cfg e.shard_idx e i w) _ (first e.pushed)
          (λ w' x.
            Ensures-mono H cfg g (Waited H cfg g T R z w') (Waited H cfg g T R z w) _
              (push_deferred-Ensures m s (suc i) e.row_end es y z w' k.1 (omega (arith, x.1.count))
                x.0 (x.1.next_row ∙ n))
              (λ w'' x'. (x'.0, IsUntouched-trans x.1 x'.1)))
      where
        first :
            (b : Bool)
            → Ensures H cfg g
                (Waited H cfg g T R z w)
                (if b then ok w else submit_upload H T cfg e.shard_idx e i w)
        first true = (h, IsUntouched-refl w)
        first false =
            submit_upload-Ensures H cfg g T R z e.shard_idx i e w room k.0.idx k.0.path
              (omega arith) h n

    -- What `close` leaves when it returns.
    abbrev pub IsFinished : ℕ → Writer H → Type 0
    IsFinished z w = IsPublished z (world H w) × IsStored H cfg g z w

    deferred-Ensures :
        (b : Bool) (z : ℕ) (w : Writer H)
        → IsStored H cfg g z w
        → w.next_row ≡ z
        → Ensures H cfg g
            (Waited H cfg g T R z w)
            (if b then push_deferred H T cfg 0 w.progress.completed_shards w else ok w)
    deferred-Ensures true z w h n =
        push_deferred-Ensures w.scratch w.store 0 0 w.progress.completed_shards z z w h.shards
          (omega arith) h n
    deferred-Ensures false z w h n = (h, IsUntouched-refl w)

    pub close-Ensures :
        (z : ℕ) (w : Writer H)
        → w.cur_h5 ≡ none
        → IsStored H cfg g z w
        → w.next_row ≡ z
        → Ensures H cfg g (IsFinished z) (close H T cfg w)
    unfolding close
    close-Ensures z w e h n =
        subst
          (λ o. Ensures H cfg g (IsFinished z) (
            close_partial H T cfg o w
            >>= (λ w'.
                if cfg.defer_push && not cfg.no_push
                then push_deferred H T cfg 0 w'.progress.completed_shards w'
                else ok w')
            >>= (λ w'. wait_pending_uploads H T 0 w')
            >>= (λ w'. ok (write_manifest H w'))))
          (sym e)
          (Ensures-bind H cfg g (IsStored H cfg g z) (IsFinished z) _ _
            (Ensures-bind H cfg g (Waited H cfg g T R z w) (IsStored H cfg g z) _ _
              (deferred-Ensures (cfg.defer_push && not cfg.no_push) z w h n)
              (λ w' x.
                Ensures-mono H cfg g (Waited H cfg g T R z w') (IsStored H cfg g z) _
                  (wait_pending_uploads-Ensures H cfg g T R z 0 w' x.0 (x.1.next_row ∙ n))
                  (λ w'' x'. x'.0)))
            (λ w' x. write_manifest-IsPublished z w' x))

    -- A valid writer that has all rows has no open shard.
    pub all_rows-closed :
        (w : Writer H) → IsValid H cfg g w → w.next_row ≡ cfg.n_rows → w.cur_h5 ≡ none
    all_rows-closed w v n = elim (Option-cases w.cur_h5) [
      | inl e ↦ e
      | inr (f, e) ↦
          let o = subst (IsOpenOk H cfg g w.cur_shard_start w.next_row) e v.open_file in
          absurd (omega (arith, o.0, v.low))
    ]

  resize-raised :
      (fixed : IsFixed H) (n : ℕ) (name : String) (spec : H.Spec) (rest : Dict H.Spec) (f : File H)
      (w : Writer H) (d : H.Dset)
      → lookup name f.dsets ≡ some d
      → resize_datasets H n ((name, spec) ∷ rest) f w
        ≡ raised type_error (record w { cur_h5 = some f })
  unfolding resize_datasets
  resize-raised fixed n name spec rest f w d e =
      rw (e, resize_datasets) (rw (fixed.resize-none d n))

  -- Whenever a shard is open, `close` raises, as soon as the schema names a dataset: the datasets
  -- were created at a fixed size, and the rows written are fewer than that.
  pub close_early :
      (T : Transport (File H)) (fixed : IsFixed H) (w : Writer H) (f : File H) (name : String)
      (spec : H.Spec) (rest : Dict H.Spec)
      → IsValid H cfg g w
      → w.cur_h5 ≡ some f
      → cfg.schema ≡ (name, spec) ∷ rest
      → close H T cfg w ≡ raised type_error (record w { cur_h5 = some f })
  unfolding close
  close_early T fixed w f name spec rest v e q =
      let (lt, filled) = subst (IsOpenOk H cfg g w.cur_shard_start w.next_row) e v.open_file in
      let known : lookup name cfg.schema ≡ some spec =
        ap (lookup name) q ∙ rw (lookup-cons, (eq_iff name name).1 refl) in
      let (xs, x, len, prefix) = filled.dataset name spec known in
      let (d, y, z) = rows_of-some H f name xs x in
      let short : ltb (w.next_row - w.cur_shard_start) (f.row_end - f.row_start) ≡ true =
        ground (arith, filled.same_start, filled.same_end, lt, v.low) in
      let refused : resize_datasets H (w.next_row - w.cur_shard_start) cfg.schema f w
          ≡ raised type_error (record w { cur_h5 = some f }) =
        ap (λ names. resize_datasets H (w.next_row - w.cur_shard_start) names f w) q
        ∙ resize-raised fixed (w.next_row - w.cur_shard_start) name spec rest f w d y in
      subst
        (λ o.
          (close_partial H T cfg o w
            >>= (λ w'.
                if cfg.defer_push && not cfg.no_push
                then push_deferred H T cfg 0 w'.progress.completed_shards w'
                else ok w')
            >>= (λ w'. wait_pending_uploads H T 0 w')
            >>= (λ w'. ok (write_manifest H w')))
          ≡ raised type_error (record w { cur_h5 = some f }))
        (sym e) (rw short (rw refused))
