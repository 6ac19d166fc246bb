-- ===== src/Recovery/Completing.antt =====
-- `finish_layer` on a layer whose shards are all there.
use graph_extraction.Base.{◌≡◌, String, some, All}
use graph_extraction.Upload.State.{Library, File, State}
use graph_extraction.Recovery.Finish.{
  LayerShard, layer_manifest, LayerSite, LayerEnd, finished, scratch_path,
}
use graph_extraction.Recovery.Marking.{IsPushed}

module _ (L : Library) where
  module _ (Kinds : Type 0) (scratch_root layer_key : String) (site : LayerSite L Kinds) where
    abbrev pub IsThere : LayerShard → Type 0
    IsThere s =
        (f : File L) × (site.remote.files (scratch_path scratch_root layer_key s.shard_idx)
          ≡ some f)

    -- It returns with every shard marked as pushed and a manifest that lists them.
    abbrev pub IsComplete : LayerEnd L Kinds → Type 0
    IsComplete o =
        (site' : LayerSite L Kinds) × (o ≡ finished site')
        × (site'.manifest ≡ some (layer_manifest site'.progress))
        × All IsPushed site'.progress.completed_shards
