-- ===== src/Writer/Lifecycle.antt =====
-- `close`, the manifest, and the loader's side: `load_shard_rows`.
use graph_extraction.Base.{
  ℕ, suc, ◌-◌, String, ◌&&◌, not, Option, none, some, List, [], ◌∷◌, ◌++◌, map, leb, ltb,
  if◌then◌else◌,
}
use graph_extraction.Base.Dict.{Dict, lookup, insert}
use graph_extraction.Writer.H5.{H5}
use graph_extraction.Writer.Transport.{Disk, Transport}
use graph_extraction.Writer.State.{
  Error, value_error, key_error, type_error, file_not_found, Outcome, ok, raised, ◌>>=◌, Entry,
  Config, File, Progress, Manifest, World, Writer,
}
use graph_extraction.Writer.Steps.{submit_upload, close_and_upload_shard, wait_pending_uploads}

module _ {V : Type 0} (H : H5 V) where
  -- `for name in self.schema: self._cur_h5[name].resize(...)`
  unfoldable pub resize_datasets : ℕ → Dict H.Spec → File H → Writer H → Outcome (Writer H)
  resize_datasets n [] f w = ok (record w { cur_h5 = some f })
  resize_datasets n ((name, _) ∷ rest) f w = elim (lookup name f.dsets) [
    | none ↦ raised key_error (record w { cur_h5 = some f })
    | some d ↦ elim (H.resize d n) [
      | none ↦ raised type_error (record w { cur_h5 = some f })
      | some d' ↦ resize_datasets n rest (record f { dsets = insert name d' f.dsets }) w
    ]
  ]

  -- The manifest that `write_manifest` makes of a progress.
  abbrev pub manifest_of : Progress H → Manifest H
  manifest_of p = record {
    n_rows = p.n_rows;
    shard_rows = p.shard_rows;
    schema = p.schema;
    attrs = p.attrs;
    complete = leb p.n_rows p.next_row;
    next_row = p.next_row;
    shards = p.completed_shards;
  }

  unfoldable pub write_manifest : Writer H → Writer H
  write_manifest w = record w { manifest_file = some (manifest_of w.progress) }

  module _ (T : Transport (File H)) (cfg : Config H) where
    -- `_push_deferred_shards`: the entries from a position on, as they are when the loop reaches
    -- them. The loop submits no entry twice, and an upload that ends marks an entry it has passed.
    unfoldable pub push_deferred : ℕ → List Entry → Writer H → Outcome (Writer H)
    push_deferred i [] w = ok w
    push_deferred i (e ∷ es) w =
        (if e.pushed then ok w else submit_upload H T cfg e.shard_idx e i w) >>= λ w'.
        push_deferred (suc i) es w'

    -- The open shard is cut to the rows written and closed.
    unfoldable pub close_partial : Option (File H) → Writer H → Outcome (Writer H)
    unfolding resize_datasets
    close_partial none w = ok w
    close_partial (some f) w =
        (if ltb (w.next_row - w.cur_shard_start) (f.row_end - f.row_start)
          then resize_datasets (w.next_row - w.cur_shard_start) cfg.schema f w
          else ok w)
        >>= λ w'. close_and_upload_shard H T cfg w'

    unfoldable pub close : Writer H → Outcome (Writer H)
    unfolding close_partial push_deferred write_manifest
    close w =
        close_partial w.cur_h5 w
        >>= (λ w'.
            if cfg.defer_push && not cfg.no_push
            then push_deferred 0 w'.progress.completed_shards w'
            else ok w')
        >>= (λ w'. wait_pending_uploads H T 0 w')
        >>= (λ w'. ok (write_manifest w'))

  -- The loader's result.
  pub data Loaded : Type 0 where
    loaded : Dict (List V) → Loaded
    failed : Error → Loaded

  -- `out[name].append(h5f[name][:])` for every name; what is concatenated at the end is kept joined.
  unfoldable pub append_rows : Dict (List V) → File H → Option (Dict (List V))
  append_rows [] f = some []
  append_rows ((name, xs) ∷ out) f =
      let rest = append_rows out f in
      elim (lookup name f.dsets) [
        | none ↦ none
        | some d ↦ elim rest [ none ↦ none | some out' ↦ some ((name, xs ++ H.rows d) ∷ out') ]
      ]

  -- `shards` in the order of `shard_idx`.
  unfoldable pub insert_sorted : Entry → List Entry → List Entry
  insert_sorted e [] = e ∷ []
  insert_sorted e (x ∷ xs) =
      let rest = insert_sorted e xs in if leb e.shard_idx x.shard_idx then e ∷ x ∷ xs else x ∷ rest

  unfoldable pub sort_shards : List Entry → List Entry
  unfolding insert_sorted
  sort_shards [] = []
  sort_shards (e ∷ es) = insert_sorted e (sort_shards es)

  abbrev pub start_names : List String → Dict (List V)
  start_names names = map (λ name. (name, [])) names

  module _ (T : Transport (File H)) where
    -- The file that a shard is read from, and the disk after it was fetched.
    unfoldable pub fetch_shard : Entry → Disk (File H) → Option (File H × Disk (File H))
    fetch_shard e d =
        if e.pushed
        then T.ensure_local e.virtual_path d
        else elim (d.scratch e.shard_idx) [ none ↦ none | some f ↦ some (f, d) ]

    unfoldable pub load_shards : List Entry → Dict (List V) → Disk (File H) → Loaded
    unfolding fetch_shard append_rows
    load_shards [] out d = loaded out
    load_shards (e ∷ es) out d = elim (fetch_shard e d) [
      | none ↦ failed file_not_found
      | some (f, d') ↦ elim (append_rows out f) [
        | none ↦ failed key_error
        | some out' ↦ load_shards es out' d'
      ]
    ]

    -- `np.concatenate` of no chunks raises.
    abbrev load_sorted : List String → List Entry → Disk (File H) → Loaded
    load_sorted names [] d = elim names [ [] ↦ loaded [] | name ∷ rest ↦ failed value_error ]
    load_sorted names (e ∷ es) d = load_shards (e ∷ es) (start_names names) d

    -- `dataset_names or list(manifest["schema"])`: no names and an empty list are alike.
    abbrev names_or : Option (List String) → List String → List String
    names_or none all = all
    names_or (some []) all = all
    names_or (some (n ∷ ns)) all = n ∷ ns

    -- `load_shard_rows(project_root, layer_key, names)`, with `None` for the schema's names.
    unfoldable pub load_shard_rows : Option (List String) → World H → Loaded
    unfolding load_shards sort_shards
    load_shard_rows names d = elim d.manifest_file [
      | none ↦ failed file_not_found
      | some m ↦
          load_sorted (names_or names (map (λ (name, _). name) m.schema)) (sort_shards m.shards)
            (record { scratch = d.scratch; store = d.store })
    ]
