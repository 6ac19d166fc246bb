-- ===== src/Writer/Rows.antt =====
-- `write_rows`: blocks of rows go into shards, and full shards are closed and uploaded.
use graph_extraction.Base.{
  ℕ, zero, suc, ◌+◌, ◌-◌, min, Bool, ◌||◌, Option, none, some, List, [], ◌∷◌, leb, ltb, ◌==◌, not,
  if◌then◌else◌,
}
use graph_extraction.Base.Dict.{Dict, lookup, insert}
use graph_extraction.Base.Slices.{slice}
use graph_extraction.Writer.H5.{H5}
use graph_extraction.Writer.Transport.{Transport}
use graph_extraction.Writer.State.{
  value_error, key_error, type_error, diverges, Outcome, ok, raised, ◌>>=◌, Config, File, Writer,
}
use graph_extraction.Writer.Steps.{open_shard, flush, close_and_upload_shard}

-- Where a chunk goes in the shard, and where it is in the caller's arrays.
pub record Span : Type 0 where
  pub local_start : ℕ
  pub local_end : ℕ
  pub src_start : ℕ
  pub src_end : ℕ

module _ {V : Type 0} (H : H5 V) where
  -- `for name, arr in datasets.items(): self._cur_h5[name][a:b] = arr[c:d]`
  unfoldable pub write_datasets : Span → Dict (List V) → File H → Writer H → Outcome (Writer H)
  write_datasets s [] f w = ok (record w { cur_h5 = some f })
  write_datasets s ((name, arr) ∷ rest) f w = elim (lookup name f.dsets) [
    | none ↦ raised key_error (record w { cur_h5 = some f })
    | some d ↦ elim (H.assign d s.local_start s.local_end (slice s.src_start s.src_end arr)) [
      | none ↦ raised type_error (record w { cur_h5 = some f })
      | some d' ↦ write_datasets s rest (record f { dsets = insert name d' f.dsets }) w
    ]
  ]

  abbrev pub write_open : Span → Dict (List V) → Option (File H) → Writer H → Outcome (Writer H)
  write_open s datasets none w = raised type_error w
  write_open s datasets (some f) w = write_datasets s datasets f w

  abbrev pub flush_open : Option (File H) → Writer H → Writer H
  flush_open none w = w
  flush_open (some f) w = record (flush H f w) { blocks_since_flush = 0 }

  module _ (T : Transport (File H)) (cfg : Config H) where
    abbrev pub ensure_open : Option (File H) → Writer H → Writer H
    ensure_open none w = open_shard H cfg w
    ensure_open (some f) w = w

    abbrev pub shard_capacity_end : Writer H → ℕ
    shard_capacity_end w = w.cur_shard_start + min cfg.shard_rows (cfg.n_rows - w.cur_shard_start)

    abbrev pub chunk_span : ℕ → ℕ → ℕ → Writer H → Span
    chunk_span row_start pos chunk_end w = record {
      local_start = pos - w.cur_shard_start;
      local_end = chunk_end - w.cur_shard_start;
      src_start = pos - row_start;
      src_end = pos - row_start + (chunk_end - pos);
    }

    abbrev pub advance : ℕ → Writer H → Writer H
    advance chunk_end w = record w {
      next_row = chunk_end;
      blocks_since_flush = w.blocks_since_flush + 1;
    }

    -- What follows the writes of a chunk: the flush, and the end of a full shard.
    unfoldable pub end_chunk : Bool → Writer H → Outcome (Writer H)
    end_chunk is_shard_full w =
        let w' : Writer H =
          if is_shard_full || leb cfg.flush_every w.blocks_since_flush
          then flush_open w.cur_h5 w
          else w in
        if is_shard_full then close_and_upload_shard H T cfg w' else ok w'

    -- One round of the loop, with the shard open.
    unfoldable pub write_chunk : ℕ → ℕ → ℕ → Dict (List V) → Writer H → Outcome (Writer H)
    write_chunk row_start pos chunk_end datasets w =
        write_open (chunk_span row_start pos chunk_end w) datasets w.cur_h5 w >>= λ w'.
        end_chunk (chunk_end == shard_capacity_end w') (advance chunk_end w')

    -- `while pos < row_end`, for at most so many rounds.
    unfoldable pub write_loop : ℕ → ℕ → ℕ → Dict (List V) → ℕ → Writer H → Outcome (Writer H)
    write_loop zero row_start row_end datasets pos w =
        if ltb pos row_end then raised diverges w else ok w
    write_loop (suc fuel) row_start row_end datasets pos w =
        let w' : Writer H = ensure_open w.cur_h5 w in
        let chunk_end = min row_end (shard_capacity_end w') in
        let round : Outcome (Writer H) = write_chunk row_start pos chunk_end datasets w' >>= λ w''.
        write_loop fuel row_start row_end datasets chunk_end w'' in
        if ltb pos row_end then round else ok w

    unfoldable pub write_rows : ℕ → ℕ → Dict (List V) → Writer H → Outcome (Writer H)
    write_rows row_start row_end datasets w =
        if leb row_end row_start
        then ok w
        else if ltb row_start w.next_row
        then raised value_error w
        else if not (row_start == w.next_row)
        then raised value_error w
        else if ltb cfg.n_rows row_end
        then raised value_error w
        else write_loop (row_end - row_start) row_start row_end datasets row_start w
