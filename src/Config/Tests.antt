-- ===== src/Config/Tests.antt =====
-- A configuration with batch sizes for two nodes.
use graph_extraction.Base.{◌≡◌, ◌≢◌, none, [], ◌∷◌}
use graph_extraction.Config.{ModelConfig, batch_for_node, dir, probe_cfg}
use graph_extraction.Config.Nodes.{probe_cfg_lem}

abbrev cfg : ModelConfig
cfg = record {
  name = "tiny_llama";
  model = "TinyLlama";
  vocab_size = 32000;
  batch = 16;
  seq = 8;
  d_model = 2048;
  input_name = "input_ids";
  sublayers = [];
  batch_by_node = ("mauao", 100) ∷ ("ruapehu", 200) ∷ [];
  block_prefix = none;
}

probe_cfg_lem_example :
    (batch_for_node (probe_cfg cfg "mauao" 64) "mauao" ≡ 64)
    × (dir (probe_cfg cfg "mauao" 64) "mauao" ≢ dir cfg "ruapehu")
probe_cfg_lem_example = probe_cfg_lem cfg "mauao" "ruapehu" 64
