-- ===== src/Writer/Steps.antt =====
-- The methods of `ShardedLayerWriter`, up to those that callers use.
use graph_extraction.Base.{
  ℕ, zero, suc, ◌+◌, ◌-◌, min, Bool, true, false, ◌&&◌, not, Option, none, some, List, [], ◌∷◌,
  ◌++◌, map, length, get_last?, leb, if◌then◌else◌,
}
use graph_extraction.Base.Dict.{Files, update}
use graph_extraction.Writer.H5.{H5}
use graph_extraction.Writer.Transport.{Transport}
use graph_extraction.Writer.State.{
  assertion_error, upload_error, diverges, Outcome, ok, raised, ◌>>=◌, Entry, Upload, Config, File,
  Progress, World, Writer,
}

-- The file under `<layer_key>/` of the store that holds a shard.
abbrev pub shard_virtual_path : ℕ → ℕ
shard_virtual_path idx = idx

abbrev pub is_none {ℓ} : {A : Type ℓ} → Option A → Bool
is_none none = true
is_none (some a) = false

-- `_drop_shards_missing_locally`: the shards before the first that is neither pushed nor on
-- scratch, and that shard.
unfoldable pub present_prefix : {F : Type 0} → Files F → List Entry → List Entry
present_prefix m [] = []
present_prefix m (e ∷ es) =
    let rest = present_prefix m es in
    if not e.pushed && is_none (m e.shard_idx) then [] else e ∷ rest

unfoldable pub first_missing : {F : Type 0} → Files F → List Entry → Option Entry
first_missing m [] = none
first_missing m (e ∷ es) =
    let rest = first_missing m es in
    if not e.pushed && is_none (m e.shard_idx) then some e else rest

-- `shard_entry["pushed"] = True` for the entry at a position.
unfoldable pub mark_pushed : ℕ → List Entry → List Entry
mark_pushed i [] = []
mark_pushed zero (e ∷ es) = record e { pushed = true } ∷ es
mark_pushed (suc i) (e ∷ es) = e ∷ mark_pushed i es

module _ {V : Type 0} (H : H5 V) where
  abbrev pub row_end_of : Option Entry → ℕ
  row_end_of none = 0
  row_end_of (some e) = e.row_end

  unfoldable pub load_progress : Config H → Option (Progress H) → Progress H
  load_progress cfg (some p) = p
  load_progress cfg none = record {
    n_rows = cfg.n_rows;
    shard_rows = cfg.shard_rows;
    schema = cfg.schema;
    attrs = cfg.attrs;
    completed_shards = [];
    next_row = 0;
  }

  unfoldable pub save_progress : Writer H → Writer H
  save_progress w =
      let p : Progress H = record w.progress { next_row = w.next_row } in
      record w { progress = p; progress_file = some p }

  unfoldable pub drop_shards_missing_locally : Writer H → Writer H
  unfolding save_progress first_missing present_prefix
  drop_shards_missing_locally w = elim (first_missing w.scratch w.progress.completed_shards) [
    | none ↦ w
    | some e ↦ save_progress (record w {
      progress = record w.progress {
        completed_shards = present_prefix w.scratch w.progress.completed_shards;
      };
      next_row = e.row_start;
    })
  ]

  unfoldable pub discard_unfinished_shards : Writer H → Writer H
  discard_unfinished_shards w = record w {
    scratch = λ i. if leb w.cur_shard_idx i then none else w.scratch i;
  }

  -- The object with its progress loaded.
  abbrev pub loaded_writer : World H → Progress H → Writer H
  loaded_writer d p = record {
    scratch = d.scratch;
    store = d.store;
    progress_file = d.progress_file;
    manifest_file = d.manifest_file;
    progress = p;
    pending_uploads = [];
    submitted = 0;
    cur_h5 = none;
    cur_shard_idx = 0;
    cur_shard_start = 0;
    next_row = 0;
    blocks_since_flush = 0;
  }

  -- The cursor is put behind the completed shards.
  unfoldable pub place_cursor : Writer H → Writer H
  place_cursor w =
      let shards = w.progress.completed_shards in
      let start = row_end_of (get_last? shards) in
      record w { cur_shard_idx = length shards; cur_shard_start = start; next_row = start }

  -- `__post_init__`
  unfoldable pub init : Config H → World H → Writer H
  unfolding load_progress drop_shards_missing_locally discard_unfinished_shards place_cursor
  init cfg d = discard_unfinished_shards (
      place_cursor
        (drop_shards_missing_locally (loaded_writer d (load_progress cfg d.progress_file))))

  -- Opens the file for writing: a file that was there is truncated.
  unfoldable pub open_shard : Config H → Writer H → Writer H
  open_shard cfg w =
      let capacity = min cfg.shard_rows (cfg.n_rows - w.cur_shard_start) in
      let f : File H = record {
        row_start = w.cur_shard_start;
        row_end = w.cur_shard_start + capacity;
        attrs = cfg.attrs;
        dsets = map (λ (name, spec). (name, H.create spec capacity)) cfg.schema;
      } in
      record w { scratch = update w.scratch w.cur_shard_idx (some f); cur_h5 = some f }

  -- What reaches the disk when the open file is flushed or closed.
  unfoldable pub flush : File H → Writer H → Writer H
  flush f w = record w { scratch = update w.scratch w.cur_shard_idx (some f) }

  abbrev pub next_shard : Writer H → Outcome (Writer H)
  next_shard w = ok (record w {
    cur_h5 = none;
    cur_shard_idx = w.cur_shard_idx + 1;
    cur_shard_start = w.next_row;
  })

  -- The entry of the shard that is being closed.
  abbrev pub closing_entry : Writer H → Entry
  closing_entry w = record {
    shard_idx = w.cur_shard_idx;
    row_start = w.cur_shard_start;
    row_end = w.next_row;
    virtual_path = shard_virtual_path w.cur_shard_idx;
    pushed = false;
  }

  -- The first half of `_close_and_upload_shard`: the file is closed and its entry is recorded.
  unfoldable pub record_shard : File H → Writer H → Writer H
  unfolding flush save_progress
  record_shard f w =
      let closed = flush (record f { row_end = w.next_row }) w in
      save_progress (record closed {
        progress = record w.progress {
          completed_shards = w.progress.completed_shards ++ closing_entry w ∷ [];
        };
      })

  module _ (T : Transport (File H)) where
    -- `future.result()`, and what follows it.
    unfoldable pub finish_upload : Upload → Writer H → Outcome (Writer H)
    unfolding save_progress mark_pushed
    finish_upload u w =
        elim (T.push u.ticket u.force u.auto_delete u.local_path u.virtual_path
          (record { scratch = w.scratch; store = w.store })) [
            | none ↦ raised upload_error w
            | some d ↦ ok (
                save_progress (record w {
                  scratch = d.scratch;
                  store = d.store;
                  progress = record w.progress {
                    completed_shards = mark_pushed u.position w.progress.completed_shards;
                  };
                }))
          ]

    abbrev pub pop_oldest : List Upload → Writer H → Outcome (Writer H)
    pop_oldest [] w = ok w
    pop_oldest (u ∷ us) w = finish_upload u (record w { pending_uploads = us })

    unfoldable pub wait_oldest_pending_upload : Writer H → Outcome (Writer H)
    unfolding finish_upload
    wait_oldest_pending_upload w = pop_oldest w.pending_uploads w

    unfoldable pub wait_times : ℕ → Writer H → Outcome (Writer H)
    wait_times zero w = ok w
    wait_times (suc n) w = wait_oldest_pending_upload w >>= λ w'. wait_times n w'

    -- Each round of the loop takes one upload off, so it has `len - keep` rounds.
    unfoldable pub wait_pending_uploads : ℕ → Writer H → Outcome (Writer H)
    wait_pending_uploads keep w = wait_times (length w.pending_uploads - keep) w

    module _ (cfg : Config H) where
      -- With `max_in_flight` 0 the source waits for fewer than no uploads, for ever.
      abbrev pub make_room : ℕ → Writer H → Outcome (Writer H)
      make_room zero w = raised diverges w
      make_room (suc keep) w = wait_pending_uploads keep w

      unfoldable pub submit_upload : ℕ → Entry → ℕ → Writer H → Outcome (Writer H)
      submit_upload local_path e position w = make_room cfg.max_in_flight w >>= λ w'.
          ok (record w' {
            pending_uploads =
                w'.pending_uploads
                ++ record {
                  ticket = w'.submitted;
                  auto_delete = cfg.auto_delete;
                  force = cfg.force_push;
                  local_path = local_path;
                  virtual_path = e.virtual_path;
                  position = position;
                }
                  ∷ [];
            submitted = suc w'.submitted;
          })

      abbrev pub start_upload : Bool → Bool → ℕ → Entry → ℕ → Writer H → Outcome (Writer H)
      start_upload true defer_push local_path e position w = ok w
      start_upload false true local_path e position w = ok w
      start_upload false false local_path e position w = submit_upload local_path e position w

      abbrev pub close_open : Option (File H) → Writer H → Outcome (Writer H)
      close_open none w = raised assertion_error w
      close_open (some f) w =
          start_upload cfg.no_push cfg.defer_push w.cur_shard_idx (closing_entry w)
            (length w.progress.completed_shards) (record_shard f w)
          >>= next_shard

      unfoldable pub close_and_upload_shard : Writer H → Outcome (Writer H)
      close_and_upload_shard w = close_open w.cur_h5 w
