-- ===== src/Models.antt =====
-- python/sdpstudio_core/models.py: the pipeline document and the validator of its ids. A node's
-- canvas position is not part of the model: no operation that is modelled reads it.
pub mod Ids
pub mod Problems
use sdp_studio.Prelude.{
  ℕ, String, Bool, List, [], ◌∷◌, map, Option, none, some, not, length, if◌then◌else◌, eqb,
  contains,
}
use sdp_studio.Json.{Fields}

pub data Severity : Type 0 where
  info warning error : Severity

-- What the clients key on: code, severity and the node that the problem stands at.
pub record Problem : Type 0 where
  pub code : String
  pub severity : Severity
  pub node_id : Option String

pub record PortRef : Type 0 where
  pub node : String
  pub port : String

pub record Node : Type 0 where
  pub id : String
  pub type : String
  pub operator_version : ℕ
  pub config : Fields

pub record Edge : Type 0 where
  pub id : String
  pub from_ : PortRef
  pub to : PortRef

pub record PipelineDocument : Type 0 where
  pub schema_version : ℕ
  pub pipeline_id : String
  pub name : String
  pub revision : ℕ
  pub nodes : List Node
  pub edges : List Edge

abbrev pub node_ids : PipelineDocument → List String
node_ids document = map (λ n. n.id) document.nodes

abbrev pub edge_ids : PipelineDocument → List String
edge_ids document = map (λ e. e.id) document.edges

-- `set(xs)`, as a list without repetition
unfoldable pub to_set : List String → List String
to_set [] = []
to_set (x ∷ xs) = let rest = to_set xs in if contains rest x then rest else x ∷ rest

pub data Validated : Type 0 where
  valid : PipelineDocument → Validated
  duplicate_node_ids duplicate_edge_ids : Validated

-- The `model_validator` that every document passes when it is built.
unfoldable pub ensure_unique_ids : PipelineDocument → Validated
unfolding to_set
ensure_unique_ids document =
    if not (eqb (length (node_ids document)) (length (to_set (node_ids document))))
    then duplicate_node_ids
    else if not (eqb (length (edge_ids document)) (length (to_set (edge_ids document))))
    then duplicate_edge_ids
    else valid document
