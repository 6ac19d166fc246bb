-- ===== src/Writer/Writing.antt =====
-- `write_rows` on a block of the layer: the writer stays valid and moves to the block's end.
use graph_extraction.Base.{
  ℕ, zero, suc, ◌+◌, ◌-◌, ◌≤◌, ◌<◌, min, ◌≡◌, refl, sym, ap, ◌∙◌, subst, String, true, false, ◌≢◌,
  ◌⊎◌, Bool-cases, Option, none, some, List, length, inl, inr, leb, ltb, ◌==◌, arith,
}
use graph_extraction.Base.Dict.{Dict, update, update_ne}
use graph_extraction.Writer.H5.{H5, IsLawful}
use graph_extraction.Writer.Transport.{Transport, IsReliable}
use graph_extraction.Writer.State.{value_error, raised, ◌>>=◌, Config, File, Writer}
use graph_extraction.Writer.Steps.{open_shard, flush, close_and_upload_shard, close_open}
use graph_extraction.Writer.Rows.{
  write_open, ensure_open, shard_capacity_end, chunk_span, advance, end_chunk, write_chunk,
  write_loop, write_rows,
}
use graph_extraction.Writer.Shards.{Shards-irrelevant}
use graph_extraction.Writer.Invariant.{
  IsStored, IsFilled, IsOpenOk, capacity_from, IsValid, Ensures, Ensures-bind, Ensures-mono,
}
use graph_extraction.Writer.Closing.{Closed, close_open-Ensures}
use graph_extraction.Writer.Datasets.{write_datasets-Fits}
use graph_extraction.Writer.Filling.{
  IsBlock, IsFilled-Fits, IsFilled-Wrote, IsFilled-at, IsFilled-Holds, IsFilled-create,
}

module _ {V : Type 0} (H : H5 V) (cfg : Config H) (g : String → ℕ → V) where
  -- Files past the recorded shards may change.
  IsStored-scratch :
      (z i : ℕ) (o : Option (File H)) (w w' : Writer H)
      → length w.progress.completed_shards ≤ i
      → w' ≡ record w {
        scratch = update w.scratch i o;
        cur_h5 = w'.cur_h5;
        next_row = w'.next_row;
        blocks_since_flush = w'.blocks_since_flush;
      }
      → IsStored H cfg g z w
      → IsStored H cfg g z w'
  IsStored-scratch z i o w w' le e h = subst (IsStored H cfg g z) (sym e) (record {
    shards =
        Shards-irrelevant H cfg.schema g true w.scratch w.store (update w.scratch i o) w.store 0 0
          w.progress.completed_shards z
          (λ j x y. update_ne w.scratch i j o (λ t. absurd (omega arith))) (λ j x y. refl) h.shards;
    pending = h.pending;
    bounded = h.bounded;
    reached = h.reached;
    same_n = h.same_n;
    same_schema = h.same_schema;
    saved = h.saved;
  })

  IsStored-cursor :
      (z : ℕ) (w : Writer H) (o : Option (File H)) (n b : ℕ)
      → IsStored H cfg g z w
      → IsStored H cfg g z (record w { cur_h5 = o; next_row = n; blocks_since_flush = b })
  IsStored-cursor z w o n b h = record {
    shards = h.shards;
    pending = h.pending;
    bounded = h.bounded;
    reached = h.reached;
    same_n = h.same_n;
    same_schema = h.same_schema;
    saved = h.saved;
  }

  module _ (L : IsLawful H) (positive : 0 < cfg.shard_rows) where
    open_shard-IsValid :
        (w : Writer H)
        → IsValid H cfg g w
        → w.cur_h5 ≡ none
        → w.next_row < cfg.n_rows
        → IsValid H cfg g (open_shard H cfg w)
    unfolding open_shard
    open_shard-IsValid w v e lt =
        let same : w.next_row ≡ w.cur_shard_start = subst (IsOpenOk H cfg g _ _) e v.open_file in
        record {
          stored =
              IsStored-scratch w.cur_shard_start w.cur_shard_idx _ w (open_shard H cfg w)
                (omega (arith, v.numbered)) refl v.stored;
          numbered = v.numbered;
          low = v.low;
          high = v.high;
          open_file = (
            omega arith,
            IsFilled-at H cfg g w.cur_shard_start (capacity_from H cfg g w.cur_shard_start) 0
                (w.next_row - w.cur_shard_start) _ (omega arith)
                (IsFilled-create H cfg g L w.cur_shard_start
                  (capacity_from H cfg g w.cur_shard_start)),
          );
        }

    module _ (T : Transport (File H)) (R : IsReliable T) (room : 0 < cfg.max_in_flight) where
      -- Between two chunks: the writer is valid and stands at row `n`.
      abbrev pub At : ℕ → Writer H → Type 0
      At n w = IsValid H cfg g w × (w.next_row ≡ n)

      abbrev written : File H → ℕ → Writer H → Writer H
      written f n w = advance H T cfg n (record w { cur_h5 = some f })

      end_chunk_full :
          (f : File H) (n : ℕ) (w : Writer H)
          → IsValid H cfg g w
          → w.cur_shard_start < n
          → n ≤ cfg.n_rows
          → n ≡ w.cur_shard_start + capacity_from H cfg g w.cur_shard_start
          → IsFilled H cfg g w.cur_shard_start
              (n - w.cur_shard_start)
              (capacity_from H cfg g w.cur_shard_start)
              f
          → Ensures H cfg g (At n) (end_chunk H T cfg true (written f n w))
      unfolding end_chunk close_and_upload_shard flush
      end_chunk_full f n w v lt le full filled =
          let w' : Writer H = record (flush H f (written f n w)) { blocks_since_flush = 0 } in
          let c : n - w.cur_shard_start ≡ capacity_from H cfg g w.cur_shard_start = omega arith in
          Ensures-mono H cfg g (Closed H cfg g T R room w') (At n) (close_open H T cfg (some f) w')
            (close_open-Ensures H cfg g T R room f w'
              (IsStored-scratch w.cur_shard_start w.cur_shard_idx (some f) w w'
                (omega (arith, v.numbered)) refl v.stored)
              v.numbered lt le
              (IsFilled-Holds H cfg g w.cur_shard_start (capacity_from H cfg g w.cur_shard_start) f
                _ refl full (IsFilled-at H cfg g w.cur_shard_start _ _ _ f c filled)))
            (λ w'' x. (x.0, x.1))

      end_chunk_partial :
          (f : File H) (n : ℕ) (w : Writer H)
          → IsValid H cfg g w
          → w.cur_shard_start ≤ n
          → n ≤ cfg.n_rows
          → n < w.cur_shard_start + capacity_from H cfg g w.cur_shard_start
          → IsFilled H cfg g w.cur_shard_start
              (n - w.cur_shard_start)
              (capacity_from H cfg g w.cur_shard_start)
              f
          → Ensures H cfg g (At n) (end_chunk H T cfg false (written f n w))
      unfolding end_chunk flush
      end_chunk_partial f n w v lo le lt filled =
          elim (Bool-cases (leb cfg.flush_every (w.blocks_since_flush + 1))) [
            | inl b ↦
                let w' : Writer H = record (flush H f (written f n w)) { blocks_since_flush = 0 } in
                rw (b, Ensures)
                  (
                    record {
                      stored =
                          IsStored-scratch w.cur_shard_start w.cur_shard_idx (some f) w w'
                            (omega (arith, v.numbered)) refl v.stored;
                      numbered = v.numbered;
                      low = lo;
                      high = le;
                      open_file = (lt, filled);
                    },
                    refl,
                  )
            | inr b ↦
                rw (b, Ensures)
                  (
                    record {
                      stored =
                          IsStored-cursor w.cur_shard_start w (some f) n (w.blocks_since_flush + 1)
                            v.stored;
                      numbered = v.numbered;
                      low = lo;
                      high = le;
                      open_file = (lt, filled);
                    },
                    refl,
                  )
          ]

      module _ (a b : ℕ) (arrs : Dict (List V)) (block : IsBlock H cfg g a b arrs)
          (bn : b ≤ cfg.n_rows) where
        -- One round of the loop.
        write_open-Ensures :
            (f : File H) (pos n : ℕ) (w : Writer H)
            → IsValid H cfg g w
            → w.next_row ≡ pos
            → a ≤ pos
            → pos < b
            → n ≡ min b (shard_capacity_end H T cfg w)
            → (pos < w.cur_shard_start + capacity_from H cfg g w.cur_shard_start)
            → IsFilled H cfg g w.cur_shard_start
                (pos - w.cur_shard_start)
                (capacity_from H cfg g w.cur_shard_start)
                f
            → Ensures H cfg g (At n) (
                write_open H (chunk_span H T cfg a pos n w) arrs (some f) w >>= λ w'.
                end_chunk H T cfg (n == shard_capacity_end H T cfg w') (advance H T cfg n w'))
        write_open-Ensures f pos n w v e ap pb q lt filled =
            let start = w.cur_shard_start in
            let low : start ≤ w.next_row = v.low in
            let (f', x, wrote) =
              write_datasets-Fits H (chunk_span H T cfg a pos n w) L (omega arith) arrs f w
                block.distinct
                (IsFilled-Fits H cfg g a b start (capacity_from H cfg g start) pos n ap
                  (omega arith) (omega arith) (omega arith) (omega arith) arrs block f filled) in
            let filled' =
              IsFilled-Wrote H cfg g a b start (capacity_from H cfg g start) pos n ap (omega arith)
                (omega arith) (omega arith) (omega arith) arrs block f f' filled wrote in
            rw (x, Ensures)
              (elim (Bool-cases (n == shard_capacity_end H T cfg w)) [
                | inl c ↦
                    rw (c, Ensures)
                      (end_chunk_full f' n w v (omega arith) (omega arith) (ground arith) filled')
                | inr c ↦
                    rw (c, Ensures)
                      (end_chunk_partial f' n w v (omega arith) (omega arith) (ground arith)
                        filled')
              ])

        write_chunk-Ensures :
            (f : File H) (pos n : ℕ) (w : Writer H)
            → w.cur_h5 ≡ some f
            → IsValid H cfg g w
            → w.next_row ≡ pos
            → a ≤ pos
            → pos < b
            → n ≡ min b (shard_capacity_end H T cfg w)
            → Ensures H cfg g (At n) (write_chunk H T cfg a pos n arrs w)
        unfolding write_chunk
        write_chunk-Ensures f pos n w e v r ap pb q =
            let (lt, filled) =
              subst (IsOpenOk H cfg g w.cur_shard_start w.next_row) e v.open_file in
            subst
              (λ o. Ensures H cfg g (At n) (
                write_open H (chunk_span H T cfg a pos n w) arrs o w >>= λ w'.
                end_chunk H T cfg (n == shard_capacity_end H T cfg w') (advance H T cfg n w')))
              (sym e)
              (write_open-Ensures f pos n w v r ap pb q (omega (arith, lt))
                (IsFilled-at H cfg g w.cur_shard_start _ _ _ f (omega arith) filled))

        ensure_open-IsValid :
            (o : Option (File H)) (w : Writer H)
            → w.cur_h5 ≡ o
            → IsValid H cfg g w
            → w.next_row < cfg.n_rows
            → IsValid H cfg g (ensure_open H T cfg o w)
              × ((ensure_open H T cfg o w).next_row ≡ w.next_row)
              × (f : File H) × ((ensure_open H T cfg o w).cur_h5 ≡ some f)
        unfolding open_shard
        ensure_open-IsValid none w e v lt = (open_shard-IsValid w v e lt, refl, _, refl)
        ensure_open-IsValid (some f) w e v lt = (v, refl, f, e)

        pub write_loop-Ensures :
            (fuel pos : ℕ) (w : Writer H)
            → IsValid H cfg g w
            → w.next_row ≡ pos
            → a ≤ pos
            → pos ≤ b
            → b - pos ≤ fuel
            → Ensures H cfg g (At b) (write_loop H T cfg fuel a b arrs pos w)
        unfolding write_loop
        write_loop-Ensures zero pos w v e ap pb enough =
            let done : ltb pos b ≡ false = ground arith in rw (done, Ensures) (v, omega arith)
        write_loop-Ensures (suc fuel) pos w v e ap pb enough = elim (Bool-cases (ltb pos b)) [
          | inl more ↦
              let w' = ensure_open H T cfg w.cur_h5 w in
              let (v', e', f, x) = ensure_open-IsValid w.cur_h5 w refl v (ground arith) in
              let n = min b (shard_capacity_end H T cfg w') in
              let lt : pos < w'.cur_shard_start + capacity_from H cfg g w'.cur_shard_start = omega (
                arith,
                (subst (IsOpenOk H cfg g w'.cur_shard_start w'.next_row) x v'.open_file).0,
              ) in
              rw (more, Ensures)
                (Ensures-bind H cfg g (At n) (At b) (write_chunk H T cfg a pos n arrs w') _
                  (write_chunk-Ensures f pos n w' x v' (e' ∙ e) ap (ground arith) refl)
                  (λ w'' y.
                    write_loop-Ensures fuel n w'' y.0 y.1 (omega arith) (omega arith)
                      (omega arith)))
          | inr done ↦ rw (done, Ensures) (v, ground arith)
        ]

        -- Given a valid writer at row `a` and the layer's rows `a` up to `b`, `a < b`, within the
        -- layer and with positive `shard_rows` and `max_in_flight`, `write_rows` ends: it returns a
        -- valid writer at row `b`, or raises for a failed upload and leaves a sound disk.
        pub write_rows-Ensures :
            (w : Writer H)
            → IsValid H cfg g w
            → w.next_row ≡ a
            → a < b
            → Ensures H cfg g (At b) (write_rows H T cfg a b arrs w)
        unfolding write_rows
        write_rows-Ensures w v e lt =
            let t1 : leb b a ≡ false = ground arith in
            let t2 : ltb a w.next_row ≡ false = ground arith in
            let t3 : (a == w.next_row) ≡ true = ground arith in
            let t4 : ltb cfg.n_rows b ≡ false = ground arith in
            rw (t1, t2, t3, t4)
              (write_loop-Ensures (b - a) a w v e (omega arith) (omega arith) (omega arith))

-- A block that does not begin at `next_row`, or that ends past the layer, is refused, and nothing
-- changes.
pub write_rows_refused :
    {V : Type 0} (H : H5 V) (T : Transport (File H)) (cfg : Config H) (a b : ℕ)
    (arrs : Dict (List V)) (w : Writer H)
    → a < b
    → (a ≢ w.next_row) ⊎ (cfg.n_rows < b)
    → write_rows H T cfg a b arrs w ≡ raised value_error w
unfolding write_rows
write_rows_refused H T cfg a b arrs w lt bad =
    let t : leb b a ≡ false = ground arith in
    elim (Bool-cases (a == w.next_row)) [
      | inl e ↦
          let t1 : ltb a w.next_row ≡ false = ground arith in
          let t2 : ltb cfg.n_rows b ≡ true = ground arith in rw (t, t1, e, t2)
      | inr e ↦ elim (Bool-cases (ltb a w.next_row)) [ inl s ↦ rw (t, s) | inr s ↦ rw (t, s, e) ]
    ]
