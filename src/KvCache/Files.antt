-- ===== src/KvCache/Files.antt =====
-- The functions of construct/kv_cache_subgraph.py and construct/kv_cache_export.py that cut a
-- subgraph, or export a model, unless its file is there. The lock that each holds meanwhile leaves
-- one of them at work at a time.
use Prim.Native.String.{◌++◌ as ◌<>◌}
use graph_extraction.Base.{
  ℕ, suc, ◌+◌, ◌-◌, ◌/◌, ◌%◌, String, Bool, ◌||◌, not, Option, none, some, List, [], ◌∷◌, ◌++◌,
  length, ◌==◌, str_eq, if◌then◌else◌,
}
use graph_extraction.Base.Dict.{Dict, lookup, insert}
use graph_extraction.Base.Texts.{mem}
use graph_extraction.Base.Decimal.{show}
use graph_extraction.Config.{ModelConfig, dir}
use graph_extraction.Onnx.{Node, Graph}
use graph_extraction.KvCache.{
  Result, ok, raised, value_error, file_not_found, ◌>>=◌, check_block_prefix, sublayer_tensor_name,
  boundary_for_index, present_kv_names, count_layers, rename_tensor,
}

-- What is used of onnx and of the export by optimum-cli, which may fail.
pub record Onnx (A : Type 0) : Type 0 where
  pub infer_shapes : Graph A → Graph A
  pub extract_model : Graph A → List String → List String → Result (Graph A)
  pub export : String → Result (Graph A)

unfoldable pub kv_cache_model_dir : ModelConfig → String → String
unfolding dir
kv_cache_model_dir cfg node = dir cfg node <> "/kv_cache_export"

unfoldable pub kv_cache_model_path : ModelConfig → String → String
unfolding kv_cache_model_dir
kv_cache_model_path cfg node = kv_cache_model_dir cfg node <> "/model.onnx"

abbrev pub dir_or : Option String → String → String
dir_or none d = d
dir_or (some out_dir) d = out_dir

unfoldable pub kv_cache_sublayer_path : ModelConfig → String → ℕ → Option String → String
unfolding kv_cache_model_dir
kv_cache_sublayer_path cfg node j_in out_dir =
    dir_or out_dir (kv_cache_model_dir cfg node)
    <> ("/sublayer." <> (show j_in <> ("." <> (show (j_in + 1) <> ".forward.onnx"))))

unfoldable pub kv_cache_extra_outputs_path : ModelConfig → String → ℕ → String → String
unfolding kv_cache_model_dir
kv_cache_extra_outputs_path cfg node layer_idx boundary =
    kv_cache_model_dir cfg node
    <> ("/extra_outputs.layers_" <> (show layer_idx <> ("_" <> (boundary <> ".onnx"))))

pub record KvSublayer : Type 0 where
  pub path : String
  pub j_in : ℕ
  pub layer_idx : Option ℕ
  pub extra_inputs : List String

abbrev pub hidden_in : String
hidden_in = "hidden_in"

abbrev pub hidden_out : String
hidden_out = "hidden_out"

-- `tuple(i.name for i in inputs if i.name != name)`
unfoldable pub without : String → List String → List String
without name [] = []
without name (i ∷ is) = let rest = without name is in if str_eq i name then rest else i ∷ rest

unfoldable pub used_names : {A : Type 0} → List (Node A) → List String
used_names [] = []
used_names (n ∷ ns) = n.input ++ used_names ns

unfoldable pub keep_inputs : String → List String → List String → List String
keep_inputs in_name used [] = []
keep_inputs in_name used (i ∷ is) =
    let rest = keep_inputs in_name used is in
    if str_eq i in_name || mem i used then i ∷ rest else rest

-- The layer whose past an attention sublayer reads.
unfoldable pub attention_layer : ℕ → Option ℕ
attention_layer j_in = if (j_in + 1) % 2 == 1 then some ((j_in + 1 - 1) / 2) else none

module _ {A : Type 0} (onnx : Onnx A) (cfg : ModelConfig) (node : String) where
  abbrev pub Files : Type 0
  Files = Dict (Graph A)

  unfoldable pub ensure_kv_cache_model : Bool → Files → Result (String × Files)
  unfolding kv_cache_model_path
  ensure_kv_cache_model force s =
      let path = kv_cache_model_path cfg node in
      let exported : Result (String × Files) =
        onnx.export cfg.model >>= λ g. ok (path, insert path g s) in
      if not (str_eq cfg.input_name "input_ids") then raised value_error else elim (lookup path s) [
        | none ↦ exported
        | some g ↦ if force then exported else ok (path, s)
      ]

  -- The base model, which has to be there.
  abbrev pub with_model : {B : Type 0} → Option (Graph A) → (Graph A → Result B) → Result B
  with_model none f = raised file_not_found
  with_model (some g) f = f g

  -- The tensor at a boundary of a checked model.
  unfoldable pub boundary_tensor : Graph A → ℕ → Result String
  boundary_tensor g j = do
    prefix ← check_block_prefix g cfg.block_prefix
    let (layer_idx, boundary) = boundary_for_index j
    sublayer_tensor_name layer_idx boundary prefix (some g)

  -- The inputs that are kept, and the two boundaries under their fixed names.
  abbrev pub cut : String → String → Graph A → Graph A
  cut in_name out_name g = rename_tensor out_name hidden_out (
      rename_tensor in_name hidden_in
        (record g { input = keep_inputs in_name (used_names g.node) g.input }))

  unfoldable pub extract_sublayer : ℕ → String → Graph A → Files → Result (KvSublayer × Files)
  unfolding boundary_tensor attention_layer without
  extract_sublayer j_in path g s = do
    in_name ← boundary_tensor g j_in
    out_name ← boundary_tensor g (j_in + 1)
    extracted ← onnx.extract_model (onnx.infer_shapes g) (in_name ∷ g.input) (out_name ∷ [])
    let kept = keep_inputs in_name (used_names extracted.node) extracted.input
    ok (
      record {
        path = path;
        j_in = j_in;
        layer_idx = attention_layer j_in;
        extra_inputs = without in_name kept;
      },
      insert path (cut in_name out_name extracted) s,
    )

  abbrev pub cached_sublayer : ℕ → String → Graph A → KvSublayer
  cached_sublayer j_in path g = record {
    path = path;
    j_in = j_in;
    layer_idx = attention_layer j_in;
    extra_inputs = without hidden_in g.input;
  }

  abbrev pub sublayer_at :
      ℕ → Bool → String → Graph A → Option (Graph A) → Files → Result (KvSublayer × Files)
  sublayer_at j_in force path g none s = extract_sublayer j_in path g s
  sublayer_at j_in force path g (some cached) s =
      if force then extract_sublayer j_in path g s else ok (cached_sublayer j_in path cached, s)

  unfoldable pub ensure_kv_cache_sublayer :
      ℕ → Option String → Bool → Files → Result (KvSublayer × Files)
  unfolding extract_sublayer kv_cache_sublayer_path kv_cache_model_path attention_layer without
  ensure_kv_cache_sublayer j_in out_dir force s =
      let path = kv_cache_sublayer_path cfg node j_in out_dir in
      with_model (lookup (kv_cache_model_path cfg node) s)
        λ g. sublayer_at j_in force path g (lookup path s) s

  -- `[sublayer_tensor_name(...) for j in range(n)]`, from `j` on.
  unfoldable pub boundary_tensors : Graph A → ℕ → ℕ → Result (List String)
  unfolding boundary_tensor
  boundary_tensors g ℕ.zero j = ok []
  boundary_tensors g (suc n) j = do
    name ← boundary_tensor g j
    names ← boundary_tensors g n (suc j)
    ok (name ∷ names)

  -- A graph with the outputs asked for, unless its file is there.
  abbrev pub extract_outputs : String → Bool → Graph A → List String → Files → Result Files
  extract_outputs path force g outputs s =
      let extracted : Result Files =
        onnx.extract_model (onnx.infer_shapes g) g.input outputs >>= λ g'. ok (insert path g' s) in
      elim (lookup path s) [ none ↦ extracted | some cached ↦ if force then extracted else ok s ]

  unfoldable pub ensure_kv_cache_boundaries :
      Bool → Files → Result (String × List String × ℕ × Files)
  unfolding kv_cache_model_dir kv_cache_model_path boundary_tensors
  ensure_kv_cache_boundaries force s =
      let path = kv_cache_model_dir cfg node <> "/extra_outputs.all_boundaries.onnx" in
      with_model (lookup (kv_cache_model_path cfg node) s) λ g. do
        prefix ← check_block_prefix g cfg.block_prefix
        let n_layers = count_layers g.input
        names ← boundary_tensors g (length cfg.sublayers) 0
        s' ← extract_outputs path force g (names ++ present_kv_names n_layers) s
        ok (path, names, n_layers, s')

  unfoldable pub ensure_kv_cache_extra_outputs :
      ℕ → String → Bool → Files → Result (String × String × ℕ × Files)
  unfolding kv_cache_extra_outputs_path kv_cache_model_path
  ensure_kv_cache_extra_outputs layer_idx boundary force s =
      let path = kv_cache_extra_outputs_path cfg node layer_idx boundary in
      with_model (lookup (kv_cache_model_path cfg node) s) λ g. do
        prefix ← check_block_prefix g cfg.block_prefix
        name ← sublayer_tensor_name layer_idx boundary prefix (some g)
        let n_layers = count_layers g.input
        s' ← extract_outputs path force g (name ∷ present_kv_names n_layers) s
        ok (path, name, n_layers, s')
