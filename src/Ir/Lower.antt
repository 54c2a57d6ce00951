-- ===== src/Ir/Lower.antt =====
-- `lower_pipeline` of python/sdpstudio_core/ir.py: the parts of the representation in topological
-- order, with the references, expressions and modes of their nodes.
pub mod Nodes
pub mod Found
pub mod Exact
pub mod Names
use text.Mathlib.Text.{starts_with}
use sdp_studio.Prelude.{
  String, Bool, true, false, List, [], ◌∷◌, ◌++◌, map, Option, none, some, not, ◌||◌, keep,
  if◌then◌else◌, ◌==◌,
}
use sdp_studio.Prelude.Dict.{Dict, lookup, get_or}
use sdp_studio.Prelude.Sort.{sort_by, sort}
use sdp_studio.Prelude.Text.{strip, is_within, remove_prefix}
use sdp_studio.Json.{Json, Fields, str, get, truthy}
use sdp_studio.Models.{Node, Edge, PipelineDocument, Problem}
use sdp_studio.Operators.{Operator}
use sdp_studio.Graph.Index.{GraphIndex, index_of}
use sdp_studio.Graph.Order.{Outcome, done, key_error, topological_order, ◌>>=◌}
use sdp_studio.Graph.Validate.{validate_graph}
use sdp_studio.Ir.{
  Mode, batch, Language, NodeKind, IrExpression, IrPart, IrSink, IrFlow, IrNode, IrDataset,
  IrPipeline, IrLoweringResult,
}
use sdp_studio.Ir.Freeze.{freeze_fields}
use sdp_studio.Ir.Refs.{Refs, collect_fields}
use sdp_studio.Ir.Modes.{assign_modes}

-- `value.strip()` of a value that is a text
stripped : Option Json → String
stripped none = ""
stripped (some (str s)) = strip s
stripped (some v) = ""

expression_text : Option Json → String
expression_text none = ""
expression_text (some (str s)) = s
expression_text (some v) = ""

first_text : List String → Fields → Option String
first_text [] config = none
first_text (key ∷ keys) config =
    let rest = first_text keys config in
    if not (stripped (get key config) == "") then some (expression_text (get key config)) else rest

unfoldable pub expression_for : Node → Option IrExpression
unfolding first_text stripped expression_text
expression_for node = elim (first_text ("expression" ∷ "query" ∷ "condition" ∷ []) node.config) [
  | none ↦ none
  | some text ↦ some (record {
    text = text;
    origin_node_id = some node.id;
    language = if is_within "sql" node.type then Language.sql else Language.literal;
  })
]

-- `value or other`
or_else : Option Json → Json → Json
or_else none other = other
or_else (some v) other = if truthy v then v else other

-- `node.config.get("name") or node.config.get("table") or node.id`
unfoldable pub sink_name : Node → Json
unfolding or_else
sink_name node = or_else (get "name" node.config) (or_else (get "table" node.config) (str node.id))

abbrev pub is_sink : Node → Bool
is_sink node = starts_with node.type "dataset." || starts_with node.type "sink."

unfoldable pub kind_of : Node → NodeKind
kind_of node =
    if starts_with node.type "source."
    then NodeKind.source
    else if is_sink node
    then NodeKind.sink
    else NodeKind.transform

-- The lists that the second loop fills.
pub record Parts : Type 0 where
  pub refs : Refs
  pub nodes : List IrNode
  pub sources : List IrPart
  pub transforms : List IrPart
  pub sinks : List IrSink
  pub datasets : List IrDataset

unfoldable pub part_of : Node → Mode → IrPart
part_of node mode = record {
  id = node.id;
  operator = node.type;
  config = freeze_fields node.config;
  mode = mode;
  expression = expression_for node;
  origin_node_id = some node.id;
}

unfoldable pub ir_node : Node → Mode → IrNode
ir_node node mode = record {
  id = node.id;
  operator = node.type;
  config = freeze_fields node.config;
  mode = mode;
  kind = kind_of node;
  expression = expression_for node;
}

unfoldable pub sink_of : Node → Mode → IrSink
sink_of node mode = record {
  id = node.id;
  operator = node.type;
  name = sink_name node;
  config = freeze_fields node.config;
  mode = mode;
  expression = expression_for node;
  origin_node_id = some node.id;
}

unfoldable pub dataset_of : Node → Mode → IrDataset
dataset_of node mode = record {
  name = sink_name node;
  kind = remove_prefix "dataset." node.type;
  mode = mode;
  origin_node_id = node.id;
  expression = expression_for node;
}

-- The branch on the kind of the node.
unfoldable pub add_part : NodeKind → Node → Mode → Parts → Parts
add_part NodeKind.source node mode parts = record parts {
  sources = parts.sources ++ part_of node mode ∷ [];
}
add_part NodeKind.sink node mode parts = record parts {
  sinks = parts.sinks ++ sink_of node mode ∷ [];
  datasets = parts.datasets ++ dataset_of node mode ∷ [];
}
add_part NodeKind.transform node mode parts = record parts {
  transforms = parts.transforms ++ part_of node mode ∷ [];
}

-- One round of the second loop.
unfoldable pub lower_node : Node → Mode → Parts → Parts
unfolding add_part
lower_node node mode parts =
    let filled = add_part (kind_of node) node mode parts in
    record filled {
      refs = collect_fields node.config parts.refs;
      nodes = parts.nodes ++ ir_node node mode ∷ [];
    }

unfoldable pub lower_nodes : GraphIndex → Dict Mode → List String → Parts → Outcome Parts
unfolding lower_node
lower_nodes g modes [] parts = done parts
lower_nodes g modes (node_id ∷ order) parts = elim (lookup node_id g.nodes) [
  | none ↦ key_error node_id
  | some node ↦ lower_nodes g modes order (lower_node node (get_or node.id batch modes) parts)
]

abbrev pub no_parts : Parts
no_parts = record {
  refs = record { parameters = []; secrets = [] };
  nodes = [];
  sources = [];
  transforms = [];
  sinks = [];
  datasets = [];
}

abbrev pub flow_of : Edge → IrFlow
flow_of edge = record {
  id = edge.id;
  from_node = edge.from_.node;
  from_port = edge.from_.port;
  to_node = edge.to.node;
  to_port = edge.to.port;
}

-- `sorted(names)` without the empty one
abbrev pub named : List String → List String
named names = keep (λ name. not (name == "")) (sort names)

unfoldable pub pipeline_of : PipelineDocument → Parts → IrPipeline
pipeline_of document parts = record {
  name = document.name;
  nodes = parts.nodes;
  flows = map flow_of (sort_by (λ e. e.id) document.edges);
  datasets = parts.datasets;
  sources = parts.sources;
  transforms = parts.transforms;
  sinks = parts.sinks;
  parameters = named parts.refs.parameters;
  secrets = named parts.refs.secrets;
  origin_pipeline_id = some document.pipeline_id;
}

unfoldable pub lower_pipeline : List Operator → PipelineDocument → Outcome IrLoweringResult
unfolding validate_graph index_of topological_order assign_modes lower_nodes pipeline_of
lower_pipeline plugins document = validate_graph plugins document >>= λ problems.
    let g = index_of document in
    topological_order g >>= λ order. assign_modes g order [] >>= λ modes.
    lower_nodes g modes order no_parts >>= λ parts.
    done (record { pipeline = pipeline_of document parts; problems = problems })

unfoldable pub pipeline_to_ir : List Operator → PipelineDocument → Outcome IrPipeline
unfolding lower_pipeline
pipeline_to_ir plugins document = lower_pipeline plugins document >>= λ result. done result.pipeline
