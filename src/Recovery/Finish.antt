-- ===== src/Recovery/Finish.antt =====
-- scripts/helper/finish_perturbed_sweep_manifests.py: the shards of a layer that is complete but not
-- pushed are pushed to the store of Upload, and then its manifest is written.
use Prim.Native.String.{◌++◌ as ◌<>◌}
use graph_extraction.Base.{
  ℕ, String, Bool, true, false, ◌&&◌, not, Option, none, some, List, [], ◌∷◌, ◌++◌, take, ltb, leb,
  if◌then◌else◌,
}
use graph_extraction.Upload.State.{Library, LocalPath, Answer, File, State}
use graph_extraction.Upload.Push.{PushEnd, returned, raised, exited, push_plan, run}
use graph_extraction.RemoteStorage.{push}
use graph_extraction.Recovery.Rebuild.{shard_file_name}
use graph_extraction.Writer.Steps.{is_none}

-- An entry of `completed_shards`.
pub record LayerShard : Type 0 where
  pub shard_idx : ℕ
  pub row_start : ℕ
  pub row_end : ℕ
  pub virtual_path : String
  pub pushed : Bool

-- The progress file; `Kinds` has the fields `shard_rows`, `schema` and `attrs`, which are passed on.
pub record LayerProgress (Kinds : Type 0) : Type 0 where
  pub n_rows : ℕ
  pub next_row : ℕ
  pub kinds : Kinds
  pub completed_shards : List LayerShard

pub record LayerManifest (Kinds : Type 0) : Type 0 where
  pub n_rows : ℕ
  pub next_row : ℕ
  pub complete : Bool
  pub kinds : Kinds
  pub shards : List LayerShard

-- `write_manifest`
abbrev pub layer_manifest : {Kinds : Type 0} → LayerProgress Kinds → LayerManifest Kinds
layer_manifest p = record {
  n_rows = p.n_rows;
  next_row = p.next_row;
  complete = leb p.n_rows p.next_row;
  kinds = p.kinds;
  shards = p.completed_shards;
}

-- `shard["pushed"] = True`
abbrev pub mark : LayerShard → LayerShard
mark s = record s { pushed = true }

-- What the pushes meet, by the number of the shard: the clock, the answers on a terminal, if there
-- is one, and after how many of its writes a push breaks off, if it does.
pub record Sitting : Type 0 where
  pub now : ℕ → ℕ
  pub isatty : Bool
  pub answers : ℕ → List Answer
  pub last_answers : ℕ → List Answer
  pub breaks : ℕ → Option ℕ

abbrev pub scratch_path : String → String → ℕ → LocalPath
scratch_path scratch_root layer_key i = record {
  dir = scratch_root;
  rel = layer_key <> ("/" <> shard_file_name i);
}

module _ (L : Library) (scratch_root layer_key : String) (sitting : Sitting) where
  -- `push(scratch_path, virtual_path=shard["virtual_path"])`
  unfoldable pub push_shard : LayerShard → File L → State L → PushEnd L
  unfolding push push_plan run shard_file_name
  push_shard s f t = elim (sitting.breaks s.shard_idx) [
    | none ↦
        push L (sitting.now s.shard_idx) (scratch_path scratch_root layer_key s.shard_idx) false
          (some s.virtual_path) false (sitting.answers s.shard_idx) sitting.isatty
          (sitting.last_answers s.shard_idx) t
    | some k ↦
        let plan =
          push_plan L (sitting.now s.shard_idx) (scratch_path scratch_root layer_key s.shard_idx)
            (some s.virtual_path) f false (sitting.answers s.shard_idx) t in
        raised (run L (take k plan.effects) t)
  ]

module _ (L : Library) (Kinds : Type 0) where
  -- The local files with the remote store, and the two files of the layer.
  pub record LayerSite : Type 0 where
    pub remote : State L
    pub progress : LayerProgress Kinds
    pub manifest : Option (LayerManifest Kinds)

  pub data LayerEnd : Type 0 where
    finished broken_off : LayerSite → LayerEnd

  abbrev pub with_shards : LayerSite → State L → List LayerShard → LayerSite
  with_shards site t shards = record site {
    remote = t;
    progress = record site.progress { completed_shards = shards };
  }

  abbrev pub with_manifest : LayerSite → LayerSite
  with_manifest site = record site { manifest = some (layer_manifest site.progress) }

  module _ (scratch_root layer_key : String) (sitting : Sitting) where
    -- The loop: the shards before the one at hand, then those from it on.
    unfoldable pub finish_shards :
        LayerSite → List LayerShard → List LayerShard → State L → LayerEnd
    unfolding push_shard
    finish_shards site done [] t = finished (with_manifest (with_shards site t done))
    finish_shards site done (s ∷ rest) t = elim s.pushed [
      | true ↦ finish_shards site (done ++ s ∷ []) rest t
      | false ↦ elim (t.files (scratch_path scratch_root layer_key s.shard_idx)) [
        | none ↦ finished (with_shards site t (done ++ s ∷ rest))
        | some f ↦ elim (push_shard L scratch_root layer_key sitting s f t) [
          | returned t' ↦ finish_shards site (done ++ mark s ∷ []) rest t'
          | raised t' ↦ broken_off (with_shards site t' (done ++ s ∷ rest))
          | exited t' ↦ broken_off (with_shards site t' (done ++ s ∷ rest))
        ]
      ]
    ]

    unfoldable pub finish_layer : Bool → LayerSite → LayerEnd
    unfolding finish_shards
    finish_layer force site =
        if ltb site.progress.next_row site.progress.n_rows
        then finished site
        else if not (is_none site.manifest) && not force
        then finished site
        else finish_shards site [] site.progress.completed_shards site.remote
