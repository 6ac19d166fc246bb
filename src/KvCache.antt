-- ===== src/KvCache.antt =====
-- construct/kv_cache_subgraph.py: the residual stream of a KV-cache model by name, and the subgraphs
-- that are cut out of it and kept as files.
pub mod Names
pub mod Layers
pub mod Rename
pub mod Files
pub mod Sublayer
mod Tests
use Prim.Native.String.{◌++◌ as ◌<>◌}
use text.Mathlib.Text.{starts_with}
use graph_extraction.Base.{
  ℕ, zero, suc, ◌+◌, ◌-◌, ◌/◌, ◌%◌, String, Bool, true, false, ◌&&◌, ◌||◌, not, Option, none, some,
  List, [], ◌∷◌, ◌++◌, map, ◌==◌, str_eq, if◌then◌else◌,
}
use graph_extraction.Base.Texts.{ends_with, mem}
use graph_extraction.Base.Decimal.{show}
use graph_extraction.Onnx.{Node, Graph, rename_node}

pub data Error : Type 0 where
  value_error file_not_found stop_iteration : Error

pub data Result (A : Type 0) : Type 0 where
  ok : A → Result A
  raised : Error → Result A

infixl 5 ◌>>=◌
abbrev pub ◌>>=◌ : {A B : Type 0} → Result A → (A → Result B) → Result B
ok a >>= f = f a
raised e >>= f = raised e

abbrev pub has_node : {A : Type 0} → String → List (Node A) → Bool
has_node name [] = false
has_node name (n ∷ ns) = str_eq n.name name || has_node name ns

unfoldable pub outside : List String → List String → List String
unfolding mem
outside inner [] = []
outside inner (i ∷ is) = let rest = outside inner is in if mem i inner then rest else i ∷ rest

abbrev pub only_one : List String → Result String
only_one [] = raised value_error
only_one (x ∷ []) = ok x
only_one (x ∷ y ∷ xs) = raised value_error

module _ {A : Type 0} where
  -- `None` and the empty text are refused alike.
  abbrev pub check_prefix : String → Graph A → Result String
  check_prefix prefix g =
      if str_eq prefix ""
      then raised value_error
      else if has_node (prefix <> ".0/Add") g.node && has_node (prefix <> ".0/Add_1") g.node
      then ok prefix
      else raised value_error

  unfoldable pub check_block_prefix : Graph A → Option String → Result String
  check_block_prefix g none = raised value_error
  check_block_prefix g (some prefix) = check_prefix prefix g

  unfoldable pub layer0_nodes : String → List (Node A) → List (Node A)
  layer0_nodes prefix [] = []
  layer0_nodes prefix (n ∷ ns) =
      let rest = layer0_nodes prefix ns in
      if starts_with n.name (prefix <> ".0/") then n ∷ rest else rest

  unfoldable pub produced : List (Node A) → List String
  produced [] = []
  produced (n ∷ ns) = n.output ++ produced ns

  unfoldable pub find_node : String → List (Node A) → Option (Node A)
  find_node name [] = none
  find_node name (n ∷ ns) = if str_eq n.name name then some n else find_node name ns

  abbrev embedding_of : List (Node A) → Option (Node A) → Result String
  embedding_of layer0 none = raised stop_iteration
  embedding_of layer0 (some add) = only_one (outside (produced layer0) add.input)

  unfoldable pub embedding_tensor_name : Graph A → String → Result String
  unfolding layer0_nodes produced find_node outside
  embedding_tensor_name g prefix =
      let layer0 = layer0_nodes prefix g.node in
      embedding_of layer0 (find_node (prefix <> ".0/Add") layer0)

  abbrev embedding_in : Option (Graph A) → String → Result String
  embedding_in none prefix = raised value_error
  embedding_in (some g) prefix = embedding_tensor_name g prefix

  unfoldable pub sublayer_tensor_name : ℕ → String → String → Option (Graph A) → Result String
  unfolding embedding_tensor_name
  sublayer_tensor_name layer_idx boundary prefix g =
      if str_eq boundary "attn_out"
      then ok (prefix <> ("." <> (show layer_idx <> "/Add_output_0")))
      else if str_eq boundary "mlp_out"
      then ok (prefix <> ("." <> (show layer_idx <> "/Add_1_output_0")))
      else if str_eq boundary "embed"
      then embedding_in g prefix
      else raised value_error

-- `boundary_for_index(j)`. A negative index, which is refused, is no number here.
unfoldable pub boundary_for_index : ℕ → ℕ × String
boundary_for_index j =
    if j == 0
    then (0, "embed")
    else if j % 2 == 1
    then ((j - 1) / 2, "attn_out")
    else (j / 2 - 1, "mlp_out")

-- `for i in range(n_layers)`, from `i` on.
unfoldable pub kv_names_from : String → ℕ → ℕ → List String
kv_names_from stem zero i = []
kv_names_from stem (suc n) i =
    (stem <> (show i <> ".key")) ∷ (stem <> (show i <> ".value")) ∷ kv_names_from stem n (suc i)

unfoldable pub present_kv_names : ℕ → List String
unfolding kv_names_from
present_kv_names n_layers = kv_names_from "present." n_layers 0

unfoldable pub past_kv_input_names : ℕ → List String
unfolding kv_names_from
past_kv_input_names n_layers = kv_names_from "past_key_values." n_layers 0

abbrev pub is_past_key : String → Bool
is_past_key name = starts_with name "past_key_values." && ends_with name ".key"

-- `n_layers` in the three functions that cut a subgraph.
unfoldable pub count_layers : List String → ℕ
count_layers [] = 0
count_layers (name ∷ names) =
    let rest = count_layers names in if is_past_key name then suc rest else rest

-- `_rename_tensor`
abbrev pub rename : String → String → String → String
rename old new name = if str_eq name old then new else name

unfoldable pub rename_tensor : {A : Type 0} → String → String → Graph A → Graph A
rename_tensor old new g = record {
  node = map (rename_node (rename old new)) g.node;
  input = map (rename old new) g.input;
  output = map (rename old new) g.output;
  value_info = map (rename old new) g.value_info;
}
