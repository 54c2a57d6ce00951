-- ===== src/Graph/Validate/Describe.antt =====
-- Sound documents: a description of what validation accepts that names neither problems nor loops.
use sdp_studio.Prelude.{
  ◌⊎◌, ℕ, ◌<◌, String, ◌≡◌, true, false, ◌&&◌, List, Memᴰ, some, count, contains, ◌==◌,
}
use sdp_studio.Prelude.Dict.{Dict, lookup}
use sdp_studio.Models.{Node, Edge, PipelineDocument}
use sdp_studio.Operators.{Operator, is_missing}
use sdp_studio.Graph.Index.{index_of}
use sdp_studio.Graph.Order.Rank.{IsRanking}
use sdp_studio.Graph.Secrets.Exposure.{ExposedFields}
use sdp_studio.Graph.Validate.{
  operator_catalog, builtin_registry, required_mode, modes_of, outputs_of, inputs_of, optional_port,
  cardinality_of,
}

-- An operator of the catalogue, no exposed literal, and every required field set.
pub record NodeSound (ops registry : Dict Operator) (node : Node) : Type 0 where
  pub known : (op : Operator) × (lookup node.type ops ≡ some op)
  pub covered : ¬ ExposedFields node.config
  pub configured :
      (definition : Operator)
      → lookup node.type registry ≡ some definition
      → (name : String) → Memᴰ name definition.required
      → is_missing node.config name ≡ false

-- Two nodes of the table, ports that their operators have, and a mode that the target supports.
pub record EdgeSound (ops : Dict Operator) (nodes : Dict Node) (edge : Edge) : Type 0 where
  pub source : Node
  pub target : Node
  pub from_source : lookup edge.from_.node nodes ≡ some source
  pub to_target : lookup edge.to.node nodes ≡ some target
  pub mode : contains (modes_of (lookup target.type ops)) (required_mode source) ≡ true
  pub output : contains (outputs_of (lookup source.type ops)) edge.from_.port ≡ true
  pub input : contains (inputs_of (lookup target.type ops)) edge.to.port ≡ true

-- The edges of the document that end at one port.
abbrev pub edges_at : PipelineDocument → String → String → ℕ
edges_at document node_id port =
    count (λ e. e.to.node == node_id && e.to.port == port) document.edges

-- One edge, none at an optional port, or several at a port that takes many.
abbrev pub PortSound : PipelineDocument → Operator → Node → String → Type 0
PortSound document op node port =
    (edges_at document node.id port ≡ 1)
    ⊎ (edges_at document node.id port ≡ 0) × (optional_port (lookup port op.input_ports) ≡ true)
    ⊎ (1 < edges_at document node.id port)
      × (cardinality_of (lookup port op.input_ports) == "many" ≡ true)

pub record IsSound (plugins : List Operator) (document : PipelineDocument) : Type 0 where
  pub nodes :
      (node : Node)
      → Memᴰ node document.nodes
      → NodeSound (operator_catalog plugins) (builtin_registry plugins) node
  pub edges :
      (edge : Edge)
      → Memᴰ edge document.edges
      → EdgeSound (operator_catalog plugins) (index_of document).nodes edge
  pub ports :
      (node : Node)
      → Memᴰ node document.nodes
      → (op : Operator) → lookup node.type (operator_catalog plugins) ≡ some op
      → (port : String) → Memᴰ port op.inputs
      → PortSound document op node port
  pub acyclic : (rank : String → ℕ) × IsRanking document rank
