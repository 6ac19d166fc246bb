-- ===== src/Writer/Closing.antt =====
-- A full shard is closed, recorded and handed to the pusher: the writer stays valid.
use graph_extraction.Base.{
  ℕ, suc, ◌+◌, ◌≤◌, ◌<◌, ◌≡◌, inl, refl, sym, ◌∙◌, subst, String, Bool, true, false, none, some, [],
  ◌∷◌, length, length-append, All-mono, arith,
}
use graph_extraction.Base.Dict.{Files, update, update_self, update_ne}
use graph_extraction.Writer.H5.{H5}
use graph_extraction.Writer.Transport.{Transport, IsReliable}
use graph_extraction.Writer.State.{Entry, Config, File, Writer}
use graph_extraction.Writer.Steps.{
  record_shard, closing_entry, start_upload, close_open, next_shard,
}
use graph_extraction.Writer.Shards.{Holds, Shards-snoc, Shards-irrelevant}
use graph_extraction.Writer.Invariant.{NamesShard, IsStored, IsValid, Ensures, Ensures-bind}
use graph_extraction.Writer.Uploads.{IsUntouched-refl, Waited, submit_upload-Ensures}

module _ {V : Type 0} (H : H5 V) (cfg : Config H) (g : String → ℕ → V) where
  -- The file that is about to be recorded holds its rows.
  abbrev pub IsFull : File H → Writer H → Type 0
  IsFull f w = Holds H cfg.schema g (record f { row_end = w.next_row }) (closing_entry H w)

  pub record_shard-IsStored :
      (f : File H) (w : Writer H)
      → IsStored H cfg g w.cur_shard_start w
      → w.cur_shard_idx ≡ length w.progress.completed_shards
      → w.cur_shard_start < w.next_row
      → w.next_row ≤ cfg.n_rows
      → IsFull f w
      → IsStored H cfg g w.next_row (record_shard H f w)
  unfolding record_shard
  record_shard-IsStored f w h n lt le full =
      let f' : File H = record f { row_end = w.next_row } in
      let m' : Files (File H) = update w.scratch w.cur_shard_idx (some f') in
      let found : m' w.cur_shard_idx ≡ some f' = update_self w.scratch _ _ (some f') refl in
      record {
        shards =
            Shards-snoc H cfg.schema g true m' w.store 0 0 w.progress.completed_shards
              w.cur_shard_start w.cur_shard_idx (closing_entry H w)
              (Shards-irrelevant H cfg.schema g true w.scratch w.store m' w.store 0 0
                w.progress.completed_shards w.cur_shard_start
                (λ j x y. update_ne w.scratch _ j _ (λ t. absurd (omega arith))) (λ j x y. refl)
                h.shards)
              (omega arith)
              (record {
                idx = refl;
                path = refl;
                start = refl;
                nonempty = lt;
                on_scratch = λ f'' x.
                    let e : f' ≡ f'' = ground (arith, found) in
                    subst (λ y. Holds H cfg.schema g y (closing_entry H w)) e full;
                in_store = λ x. absurd (ground arith);
                present = λ _ _. (f', found);
              });
        pending =
            All-mono (NamesShard (length w.progress.completed_shards)) _ w.pending_uploads
              (λ u x. (
                x.0,
                x.1,
                omega
                    (arith, length-append {0} w.progress.completed_shards (closing_entry H w ∷ [])),
              ))
              h.pending;
        bounded = le;
        reached = refl;
        same_n = h.same_n;
        same_schema = h.same_schema;
        saved = inl refl;
      }

  pub record_shard_fields :
      (f : File H) (w : Writer H)
      → ((record_shard H f w).next_row ≡ w.next_row)
        × ((record_shard H f w).cur_shard_idx ≡ w.cur_shard_idx)
        × (length (record_shard H f w).progress.completed_shards
            ≡ suc (length w.progress.completed_shards))
  unfolding record_shard
  record_shard_fields f w = (
    refl,
    refl,
    omega (arith, length-append {0} w.progress.completed_shards (closing_entry H w ∷ [])),
  )

  -- The same recorded shards, whatever the cursor is.
  pub IsStored-next_shard :
      (z : ℕ) (w : Writer H)
      → IsStored H cfg g z w
      → IsStored H cfg g z (record w {
        cur_h5 = none;
        cur_shard_idx = w.cur_shard_idx + 1;
        cur_shard_start = w.next_row;
      })
  IsStored-next_shard z w h = record {
    shards = h.shards;
    pending = h.pending;
    bounded = h.bounded;
    reached = h.reached;
    same_n = h.same_n;
    same_schema = h.same_schema;
    saved = h.saved;
  }

  module _ (T : Transport (File H)) (R : IsReliable T) (room : 0 < cfg.max_in_flight) where
    start_upload-Ensures :
        (no_push defer_push : Bool) (e : Entry) (position z : ℕ) (w : Writer H)
        → e.shard_idx ≡ position
        → e.virtual_path ≡ position
        → position < length w.progress.completed_shards
        → IsStored H cfg g z w
        → w.next_row ≡ z
        → Ensures H cfg g
            (Waited H cfg g T R z w)
            (start_upload H T cfg no_push defer_push e.shard_idx e position w)
    start_upload-Ensures true defer_push e position z w p q r h n = (h, IsUntouched-refl w)
    start_upload-Ensures false true e position z w p q r h n = (h, IsUntouched-refl w)
    start_upload-Ensures false false e position z w p q r h n =
        submit_upload-Ensures H cfg g T R z e.shard_idx position e w room p q r h n

    -- After the shard is closed the next row is as it was, and no shard is open.
    abbrev pub Closed : Writer H → Writer H → Type 0
    Closed w w' = IsValid H cfg g w' × (w'.next_row ≡ w.next_row) × (w'.cur_h5 ≡ none)

    pub close_open-Ensures :
        (f : File H) (w : Writer H)
        → IsStored H cfg g w.cur_shard_start w
        → w.cur_shard_idx ≡ length w.progress.completed_shards
        → w.cur_shard_start < w.next_row
        → w.next_row ≤ cfg.n_rows
        → IsFull f w
        → Ensures H cfg g (Closed w) (close_open H T cfg (some f) w)
    close_open-Ensures f w h n lt le full =
        let z = w.next_row in
        let w1 = record_shard H f w in
        let fields = record_shard_fields f w in
        Ensures-bind H cfg g (Waited H cfg g T R z w1) (Closed w)
          (start_upload H T cfg cfg.no_push cfg.defer_push w.cur_shard_idx (closing_entry H w)
            (length w.progress.completed_shards) w1)
          (next_shard H)
          (start_upload-Ensures cfg.no_push cfg.defer_push (closing_entry H w)
            (length w.progress.completed_shards) z w1 n n (omega (arith, fields.2))
            (record_shard-IsStored f w h n lt le full) fields.0)
          (λ w' x.
            let e : w'.next_row ≡ z = x.1.next_row ∙ fields.0 in
            (
              record {
                stored =
                    IsStored-next_shard w'.next_row w'
                      (subst (λ y. IsStored H cfg g y w') (sym e) x.0);
                numbered = omega (arith, x.1.cur_shard_idx, x.1.count, fields.1, fields.2);
                low = omega arith;
                high = omega arith;
                open_file = refl;
              },
              e,
              refl,
            ))
