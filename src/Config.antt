-- ===== src/Config.antt =====
-- config.py: the configuration of a model, and where its artifacts are kept.
pub mod Nodes
mod Tests
use Prim.Native.String.{◌++◌ as ◌<>◌}
use graph_extraction.Base.{
  ℕ, String, Bool, true, false, Option, none, some, List, [], ◌∷◌, length, leb, str_eq,
  if◌then◌else◌,
}
use graph_extraction.Base.Dict.{Dict, lookup}

pub data LossType : Type 0 where
  masked_sum_loss squared_diff_loss normalized_squared_diff_loss envelope_diff_loss : LossType

pub data OptimizerType : Type 0 where
  sgd adam_w : OptimizerType

abbrev pub loss_value : LossType → String
loss_value masked_sum_loss = "MaskedSumLoss"
loss_value squared_diff_loss = "AdversarialLoss_SquaredDiffLoss"
loss_value normalized_squared_diff_loss = "AdversarialLoss_NormalizedSquaredDiffLoss"
loss_value envelope_diff_loss = "AdversarialLoss_EnvelopeDiffLoss"

-- `LossType(value)`: `none` for the `ValueError`.
unfoldable pub loss_of : String → Option LossType
loss_of s =
    if str_eq s "MaskedSumLoss"
    then some masked_sum_loss
    else if str_eq s "AdversarialLoss_SquaredDiffLoss"
    then some squared_diff_loss
    else if str_eq s "AdversarialLoss_NormalizedSquaredDiffLoss"
    then some normalized_squared_diff_loss
    else if str_eq s "AdversarialLoss_EnvelopeDiffLoss"
    then some envelope_diff_loss
    else none

pub record SublayerConfig : Type 0 where
  pub loss_type : LossType
  pub input_shape : List ℕ
  pub output : String
  pub input : String
  pub optimizer_type : Option OptimizerType

-- The fields that the modelled code reads.
pub record ModelConfig : Type 0 where
  pub name : String
  pub model : String
  pub vocab_size : ℕ
  pub batch : ℕ
  pub seq : ℕ
  pub d_model : ℕ
  pub input_name : String
  pub sublayers : List SublayerConfig
  pub batch_by_node : Dict ℕ
  pub block_prefix : Option String

-- `os.environ.get("SLURMD_NODENAME") or socket.gethostname()`: an empty text counts as none.
unfoldable pub current_node_name : Option String → String → String
current_node_name none hostname = hostname
current_node_name (some slurm) hostname = if str_eq slurm "" then hostname else slurm

abbrev or_else : Option ℕ → ℕ → ℕ
or_else none d = d
or_else (some v) d = v

-- `batch_for_node(node)`, with the node's name at hand.
unfoldable pub batch_for_node : ModelConfig → String → ℕ
batch_for_node cfg node = or_else (lookup node cfg.batch_by_node) cfg.batch

-- `dir`, on a node.
unfoldable pub dir : ModelConfig → String → String
dir cfg node =
    if leb (length cfg.batch_by_node) 1
    then "onnx_models/" <> cfg.name
    else ("onnx_models/" <> cfg.name) <> ("/" <> node)

-- `_probe_cfg` of scripts/helper/find_max_batch_size.py
unfoldable pub probe_cfg : ModelConfig → String → ℕ → ModelConfig
probe_cfg cfg node batch = record cfg {
  name = cfg.name <> ("_batch_probe_" <> node);
  batch_by_node = (node, batch) ∷ [];
}
