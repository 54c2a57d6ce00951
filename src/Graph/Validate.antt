-- ===== src/Graph/Validate.antt =====
-- `validate_graph` of python/sdpstudio_core/graph.py, from the checks of single nodes, edges and
-- ports to the whole report. Of a problem the model keeps code, severity and node; the missing key
-- on which the topological order may stop leaves the report undone.
pub mod Describe
pub mod Clean
pub mod Ports
pub mod Sound
use text.Mathlib.Text.{starts_with}
use sdp_studio.Prelude.{
  ℕ, zero, suc, String, Bool, true, false, List, [], ◌∷◌, ◌++◌, Option, none, some, not, ◌&&◌, ◌||◌,
  contains, keep, any, length, eqb, ltb, if◌then◌else◌, ◌==◌,
}
use sdp_studio.Prelude.Dict.{Dict, lookup, has, get_or}
use sdp_studio.Json.{Json, Fields, get, flag}
use sdp_studio.Models.{Node, Edge, PipelineDocument, Problem, Severity}
use sdp_studio.Operators.{
  Operator, PortMetadata, both_modes, catalog, register_all, validate_config,
}
use sdp_studio.Operators.Builtin.{builtin_operators}
use sdp_studio.Graph.Index.{GraphIndex, index_of, edges_into}
use sdp_studio.Graph.Order.{Outcome, done, key_error, out_of_fuel, topological_order}
use sdp_studio.Graph.Secrets.{secret_literal_problems}

abbrev pub error_at : String → String → Problem
error_at code node_id = record { code = code; severity = Severity.error; node_id = some node_id }

abbrev pub warning_at : String → String → Problem
warning_at code node_id = record {
  code = code;
  severity = Severity.warning;
  node_id = some node_id;
}

-- `operator_catalog()` with the operators that plugins contribute
abbrev pub operator_catalog : List Operator → Dict Operator
operator_catalog plugins = catalog (builtin_operators ++ plugins) []

-- `builtin_registry()` with the same
abbrev pub builtin_registry : List Operator → Dict Operator
builtin_registry plugins = register_all plugins (catalog builtin_operators [])

-- The first loop, at one node. `registry.get` finds every id of the catalogue.
unfoldable pub node_problems : Dict Operator → Dict Operator → Node → List Problem
unfolding secret_literal_problems validate_config
node_problems ops registry node =
    secret_literal_problems node.id node.config ++ elim (lookup node.type ops) [
      | none ↦ error_at "SDPS-GRAPH-010" node.id ∷ []
      | some _ ↦ elim (lookup node.type registry) [
        | none ↦ []
        | some definition ↦ validate_config definition node.config node.id
      ]
    ]

-- Whether a node's output is read as a stream.
unfoldable pub source_streaming : Node → Bool
unfolding get
source_streaming node =
    flag "streaming" node.config
    || (node.type == "source.kafka" || node.type == "dataset.streaming_table")

abbrev pub required_mode : Node → String
required_mode node = if source_streaming node then "streaming" else "batch"

-- `op.get("modes", …)`, `op.get("outputs", [])` and `op.get("inputs", [])` where `op` may be `{}`
abbrev pub modes_of : Option Operator → List String
modes_of none = both_modes
modes_of (some op) = op.modes

abbrev pub outputs_of : Option Operator → List String
outputs_of none = []
outputs_of (some op) = op.outputs

abbrev pub inputs_of : Option Operator → List String
inputs_of none = []
inputs_of (some op) = op.inputs

abbrev pub problem_if : Bool → Problem → List Problem
problem_if b p = if b then p ∷ [] else []

-- The second loop, at one edge between nodes of the table.
unfoldable pub endpoint_problems : Dict Operator → Edge → Node → Node → List Problem
unfolding source_streaming
endpoint_problems ops edge source target =
    problem_if (not (contains (modes_of (lookup target.type ops)) (required_mode source)))
      (error_at "SDPS-GRAPH-011" edge.to.node)
    ++ (problem_if (not (contains (outputs_of (lookup source.type ops)) edge.from_.port))
          (error_at "SDPS-GRAPH-004" edge.from_.node)
        ++ problem_if (not (contains (inputs_of (lookup target.type ops)) edge.to.port))
            (error_at "SDPS-GRAPH-005" edge.to.node))

abbrev pub invalid_edge : Problem
invalid_edge = record { code = "SDPS-GRAPH-003"; severity = Severity.error; node_id = none }

unfoldable pub edge_problems : Dict Operator → GraphIndex → Edge → List Problem
unfolding endpoint_problems
edge_problems ops g edge = elim (lookup edge.from_.node g.nodes) [
  | none ↦ invalid_edge ∷ []
  | some source ↦ elim (lookup edge.to.node g.nodes) [
    | none ↦ invalid_edge ∷ []
    | some target ↦ endpoint_problems ops edge source target
  ]
]

abbrev pub optional_port : Option PortMetadata → Bool
optional_port none = false
optional_port (some m) = m.optional

abbrev pub cardinality_of : Option PortMetadata → String
cardinality_of none = "one"
cardinality_of (some m) = m.cardinality

-- `len(by_port.get(port, []))`
abbrev pub connections : GraphIndex → Node → String → ℕ
connections g node port = length (keep (λ e. e.to.port == port) (edges_into g node.id))

-- The third loop, at one input port of a node whose operator is known.
unfoldable pub port_problems : GraphIndex → Operator → Node → String → List Problem
port_problems g op node port =
    let metadata = lookup port op.input_ports in
    let count = connections g node port in
    if eqb count 0
    then problem_if (not (optional_port metadata)) (error_at "SDPS-GRAPH-002" node.id)
    else problem_if (ltb 1 count && not (cardinality_of metadata == "many"))
        (error_at "SDPS-GRAPH-007" node.id)

-- `for x in xs: problems.extend(f(x))`
abbrev pub gather {ℓ} : {A : Type ℓ} → (A → List Problem) → List A → List Problem
gather f [] = []
gather f (x ∷ xs) = f x ++ gather f xs

unfoldable pub input_problems : Dict Operator → GraphIndex → Node → List Problem
unfolding port_problems
input_problems ops g node = elim (lookup node.type ops) [
  | none ↦ []
  | some op ↦ gather (port_problems g op node) op.inputs
]

-- `node.type.startswith("dataset.") or node.type.startswith("sink.")`
abbrev pub is_output : Node → Bool
is_output node = starts_with node.type "dataset." || starts_with node.type "sink."

-- The last three loops: advice, never an error.
unfoldable pub advice : Node → List Problem
unfolding get
advice node =
    problem_if
      (node.type == "transform.join" && elim (get "how" node.config) [
        | none ↦ false
        | some (Json.str s) ↦ s == "cross"
        | some Json.null ↦ false
        | some (Json.bool b) ↦ false
        | some (Json.num m n) ↦ false
        | some (Json.list vs) ↦ false
        | some (Json.dict d) ↦ false
      ])
      (warning_at "SDPS-PERF-001" node.id)
    ++ (problem_if (node.type == "transform.limit") (warning_at "SDPS-SEM-001" node.id)
        ++ problem_if (node.type == "transform.repartition") (warning_at "SDPS-PERF-002" node.id))

abbrev pub cycle_detected : Problem
cycle_detected = record { code = "SDPS-GRAPH-001"; severity = Severity.error; node_id = none }

abbrev pub no_declared_output : Problem
no_declared_output = record { code = "SDPS-GRAPH-009"; severity = Severity.warning; node_id = none }

unfoldable pub report :
    Dict Operator → Dict Operator → GraphIndex → PipelineDocument → List String → List Problem
unfolding node_problems edge_problems input_problems advice
report ops registry g document order =
    gather (node_problems ops registry) document.nodes
    ++ (gather (edge_problems ops g) document.edges
        ++ (gather (input_problems ops g) document.nodes
            ++ (problem_if (not (eqb (length order) (length document.nodes))) cycle_detected
                ++ (problem_if
                      (not (eqb (length document.nodes) 0) && not (any is_output document.nodes))
                      no_declared_output
                    ++ gather advice document.nodes))))

unfoldable pub validate_graph : List Operator → PipelineDocument → Outcome (List Problem)
unfolding topological_order index_of report
validate_graph plugins document =
    let g = index_of document in
    elim (topological_order g) [
      | done order ↦
          done (report (operator_catalog plugins) (builtin_registry plugins) g document order)
      | key_error k ↦ key_error k
      | out_of_fuel ↦ out_of_fuel
    ]
