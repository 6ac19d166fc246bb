-- ===== src/KvCache/Tests.antt =====
-- A model with one layer, and an extractor that keeps its nodes.
use graph_extraction.Base.{
  ℕ, ◌+◌, ◌≡◌, ◌≢◌, refl, sym, ap, String, false, none, some, List, [], ◌∷◌, ◌++◌, arith, eq_iff,
  str_eq,
}
use graph_extraction.Base.Dict.{Dict, lookup, insert}
use graph_extraction.Base.Texts.{mem}
use graph_extraction.Base.Decimal.{show}
use graph_extraction.Config.{ModelConfig}
use graph_extraction.Onnx.{Node, Graph}
use graph_extraction.Onnx.Meaning.{run}
use graph_extraction.KvCache.{
  ok, raised, file_not_found, check_block_prefix, sublayer_tensor_name, layer0_nodes, produced,
  find_node, outside, boundary_for_index, past_kv_input_names, count_layers, rename_tensor,
}
use graph_extraction.KvCache.Names.{boundary_name-inj}
use graph_extraction.KvCache.Layers.{count_layers-past_kv_input_names}
use graph_extraction.KvCache.Rename.{rename_tensor-run}
use graph_extraction.KvCache.Files.{
  Onnx, KvSublayer, boundary_tensor, ensure_kv_cache_sublayer, kv_cache_model_path, keep_inputs,
  used_names,
}
use graph_extraction.KvCache.Sublayer.{IsExtractor, ensure_kv_cache_sublayer_again}

boundary_name-inj_example : ◌≡◌ {A = ℕ} 24 24
boundary_name-inj_example =
    boundary_name-inj {A = Unit {0}} "/transformer/h" none 24 24 (omega arith) (omega arith) refl

final_boundary : boundary_for_index 24 ≡ (11, "mlp_out")
unfolding boundary_for_index
final_boundary = refl

count_layers-past_kv_input_names_example :
    count_layers (past_kv_input_names 12 ++ "input_ids" ∷ "attention_mask" ∷ [])
    ≡ 12 + count_layers ("input_ids" ∷ "attention_mask" ∷ [])
count_layers-past_kv_input_names_example =
    count_layers-past_kv_input_names 12 ("input_ids" ∷ "attention_mask" ∷ [])

-- Each node gives the first of its inputs, one larger.
abbrev step : Unit {0} → List ℕ → List ℕ
step u [] = []
step u (x ∷ xs) = (x + 1) ∷ []

abbrev attn : Node (Unit {0})
attn = record { name = "/m.0/attn"; attrs = tt; input = "emb" ∷ []; output = "ctx" ∷ [] }

abbrev add : Node (Unit {0})
add = record {
  name = "/m.0/Add";
  attrs = tt;
  input = "emb" ∷ "ctx" ∷ [];
  output = "/m.0/Add_output_0" ∷ [];
}

abbrev add_1 : Node (Unit {0})
add_1 = record {
  name = "/m.0/Add_1";
  attrs = tt;
  input = "/m.0/Add_output_0" ∷ [];
  output = "/m.0/Add_1_output_0" ∷ [];
}

abbrev model : Graph (Unit {0})
model = record {
  node = attn ∷ add ∷ add_1 ∷ [];
  input = "input_ids" ∷ "past_key_values.0.key" ∷ "past_key_values.0.value" ∷ [];
  output = "logits" ∷ [];
  value_info = [];
}

apart : (s t : String) → str_eq s t ≡ false → s ≢ t
apart s t h e = absurd (ground (arith, h, (eq_iff s t).1 e))

rename_tensor-run_example :
    (run step (rename_tensor "emb" "hidden_in" model).node (λ x. 5) "hidden_in"
      ≡ run step model.node (λ x. 5) "emb")
    × ((x : String)
        → x ≢ "emb"
        → x ≢ "hidden_in"
        → run step (rename_tensor "emb" "hidden_in" model).node (λ x. 5) x
          ≡ run step model.node (λ x. 5) x)
rename_tensor-run_example =
    rename_tensor-run step "emb" "hidden_in" model (λ x. 5) (λ x. 5)
      (
        ((apart "emb" "hidden_in" refl, tt), (apart "ctx" "hidden_in" refl, tt)),
        (
          (
            (apart "emb" "hidden_in" refl, (apart "ctx" "hidden_in" refl, tt)),
            (apart "/m.0/Add_output_0" "hidden_in" refl, tt),
          ),
          (
            (
              (apart "/m.0/Add_output_0" "hidden_in" refl, tt),
              (apart "/m.0/Add_1_output_0" "hidden_in" refl, tt),
            ),
            tt,
          ),
        ),
      )
      refl (λ x a b. refl) (apart "emb" "hidden_in" refl)

abbrev keeping : Onnx (Unit {0})
keeping = record {
  infer_shapes = λ g. g;
  extract_model = λ g ins outs. ok (record g { input = ins; output = outs });
  export = λ model. raised file_not_found;
}

keeping-IsExtractor : IsExtractor keeping
keeping-IsExtractor = record { inputs = λ g g' ins outs e. inputs_of g g' ins outs e }
  where
    inputs_of :
        (g g' : Graph (Unit {0})) (ins outs : List String)
        → ok (record g { input = ins; output = outs }) ≡ ok g'
        → g'.input ≡ ins
    inputs_of g g' ins outs e =
        let h : record g { input = ins; output = outs } ≡ g' = ground (arith, e) in
        sym (ap (λ (k : Graph (Unit {0})). k.input) h)

abbrev cfg : ModelConfig
cfg = record {
  name = "toy";
  model = "toy/model";
  vocab_size = 10;
  batch = 2;
  seq = 4;
  d_model = 8;
  input_name = "input_ids";
  sublayers = [];
  batch_by_node = [];
  block_prefix = some "/m";
}

abbrev files : Dict (Graph (Unit {0}))
files = ("onnx_models/toy/kv_cache_export/model.onnx", model) ∷ []

is_boundary_0 : boundary_tensor keeping cfg "mauao" model 0 ≡ ok "emb"
unfolding boundary_tensor check_block_prefix sublayer_tensor_name boundary_for_index layer0_nodes
    produced find_node outside
is_boundary_0 = refl

is_boundary_1 : boundary_tensor keeping cfg "mauao" model 1 ≡ ok "/m.0/Add_output_0"
unfolding boundary_tensor check_block_prefix sublayer_tensor_name boundary_for_index show
is_boundary_1 = refl

abbrev sub : KvSublayer
sub = record {
  path = "onnx_models/toy/kv_cache_export/sublayer.0.1.forward.onnx";
  j_in = 0;
  layer_idx = some 0;
  extra_inputs = [];
}

abbrev files' : Dict (Graph (Unit {0}))
files' =
    insert "onnx_models/toy/kv_cache_export/sublayer.0.1.forward.onnx"
      (rename_tensor "/m.0/Add_output_0" "hidden_out" (
        rename_tensor "emb" "hidden_in"
          (record model { input = "emb" ∷ []; output = "/m.0/Add_output_0" ∷ [] })))
      files

is_cut : ensure_kv_cache_sublayer keeping cfg "mauao" 0 none false files ≡ ok (sub, files')
unfolding ensure_kv_cache_sublayer boundary_tensor check_block_prefix sublayer_tensor_name
    boundary_for_index layer0_nodes produced find_node outside show lookup insert rename_tensor
    keep_inputs used_names mem
is_cut = refl

ensure_kv_cache_sublayer_again_example :
    ensure_kv_cache_sublayer keeping cfg "mauao" 0 none false files' ≡ ok (sub, files')
unfolding lookup kv_cache_model_path
ensure_kv_cache_sublayer_again_example =
    ensure_kv_cache_sublayer_again keeping cfg "mauao" keeping-IsExtractor model 0 "emb"
      "/m.0/Add_output_0" is_boundary_0 is_boundary_1 (apart "emb" "/m.0/Add_output_0" refl)
      (apart "/m.0/Add_output_0" "hidden_in" refl)
      (
        (apart "input_ids" "hidden_in" refl, apart "input_ids" "/m.0/Add_output_0" refl),
        (
          (
            apart "past_key_values.0.key" "hidden_in" refl,
            apart "past_key_values.0.key" "/m.0/Add_output_0" refl,
          ),
          (
            (
              apart "past_key_values.0.value" "hidden_in" refl,
              apart "past_key_values.0.value" "/m.0/Add_output_0" refl,
            ),
            tt,
          ),
        ),
      )
      none false files files' sub refl is_cut
