-- ===== src/Recovery/Finishing.antt =====
-- What `finish_layer` leaves behind, when no terminal is there.
use graph_extraction.Base.{◌<◌, ◌≡◌, ◌≢◌, ◌⊎◌, String, Bool, false, none, some, All, Any}
use graph_extraction.Upload.State.{Library, State}
use graph_extraction.Recovery.Finish.{
  LayerShard, layer_manifest, LayerSite, LayerEnd, finished, broken_off, Sitting, scratch_path,
}
use graph_extraction.Recovery.Marking.{AreMarked, IsPushed}

module _ (L : Library) where
  module _ (Kinds : Type 0) (scratch_root layer_key : String) (sitting : Sitting)
      (site : LayerSite L Kinds) where
    abbrev IsAbsent : LayerShard → Type 0
    IsAbsent s =
        (s.pushed ≡ false)
        × (site.remote.files (scratch_path scratch_root layer_key s.shard_idx) ≡ none)

    -- Every local file is as it was, and so is the progress but for marks that were added.
    pub record IsKept (site' : LayerSite L Kinds) : Type 0 where
      pub files : site'.remote.files ≡ site.remote.files
      pub n_rows : site'.progress.n_rows ≡ site.progress.n_rows
      pub next_row : site'.progress.next_row ≡ site.progress.next_row
      pub kinds : site'.progress.kinds ≡ site.progress.kinds
      pub shards : AreMarked site.progress.completed_shards site'.progress.completed_shards

    -- The layer was left as it was, a shard could not be found, or all are marked and listed.
    abbrev pub IsFinished : Bool → LayerEnd L Kinds → Type 0
    IsFinished force (finished site') =
        IsKept site'
        × ((site' ≡ site)
              × ((site.progress.next_row < site.progress.n_rows)
                  ⊎ (site.manifest ≢ none) × (force ≡ false))
            ⊎ (site'.manifest ≡ site.manifest) × Any IsAbsent site'.progress.completed_shards
            ⊎ (site'.manifest ≡ some (layer_manifest site'.progress))
              × All IsPushed site'.progress.completed_shards)
    IsFinished force (broken_off site') = IsKept site' × (site'.manifest ≡ site.manifest)
