-- ===== src/Onnx.antt =====
-- The part of an ONNX graph that the construction code reads and rewrites: nodes that take and give
-- named tensors. What a node computes stands in its `attrs`.
pub mod Meaning
use graph_extraction.Base.{String, List, [], ◌∷◌, ◌++◌, map}

pub record Node (A : Type 0) : Type 0 where
  pub name : String
  pub attrs : A
  pub input : List String
  pub output : List String

-- `input`, `output` and `value_info` are lists of `ValueInfoProto`, by their names.
pub record Graph (A : Type 0) : Type 0 where
  pub node : List (Node A)
  pub input : List String
  pub output : List String
  pub value_info : List String

abbrev pub rename_node : {A : Type 0} → (String → String) → Node A → Node A
rename_node ρ n = record n { input = map ρ n.input; output = map ρ n.output }
