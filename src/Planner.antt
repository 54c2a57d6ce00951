-- ===== src/Planner.antt =====
-- `plan_pipeline` of python/sdpstudio_codegen/planner.py: the language of each output. The
-- `ValueError` on another preference is ruled out by the type, and the top of the Python stack is
-- the head of its list.
pub mod Walk
pub mod Assign
pub mod Outputs
pub mod Exact
use text.Mathlib.Text.{starts_with}
use sdp_studio.Prelude.{
  ℕ, zero, suc, ◌+◌, String, Bool, true, false, List, [], ◌∷◌, ◌++◌, map, length, contains, Option,
  none, some,
}
use sdp_studio.Prelude.Dict.{Dict, lookup}
use sdp_studio.Prelude.Sort.{sort}
use sdp_studio.Models.{Node, Edge, PipelineDocument, Problem, to_set}
use sdp_studio.Operators.{Operator}
use sdp_studio.Graph.Index.{GraphIndex, index_of, edges_into}
use sdp_studio.Graph.Order.{Outcome, done, key_error, out_of_fuel, topological_order, ◌>>=◌}
use sdp_studio.Graph.Validate.{error_at}
use sdp_studio.Ir.Lower.{lower_pipeline}
use sdp_studio.Ir.View.{graph_view}

pub data Preference : Type 0 where
  auto prefer_python prefer_sql : Preference

-- `Literal["python", "sql"]`
pub data PlanLanguage : Type 0 where
  python sql : PlanLanguage

pub record DatasetLanguagePlan : Type 0 where
  pub dataset_id : String
  pub language : PlanLanguage
  pub reasons : List String

pub record MixedLanguagePlan : Type 0 where
  pub assignments : List DatasetLanguagePlan
  pub problems : List Problem

-- `_SQL_UNSUPPORTED`
unfoldable pub sql_unsupported : Dict String
sql_unsupported =
    ("utility.custom_code", "custom code requires the Python backend")
    ∷ ("transform.drop", "drop requires explicit SQL projection columns")
    ∷ ("transform.flatten_struct", "flatten_struct requires schema-aware Python lowering")
    ∷ ("transform.intersect", "intersect requires binary SQL lowering")
    ∷ ("transform.except", "except requires binary SQL lowering")
    ∷ []

-- `stack.extend_stack(edge.from_.node for edge in edges)`
unfoldable pub extend_stack : List Edge → List String → List String
extend_stack [] stack = stack
extend_stack (edge ∷ edges) stack = extend_stack edges (edge.from_.node ∷ stack)

-- `unsupported` with the reason of one node, if it has one
unfoldable pub note_type : Option String → List String → List String
note_type none unsupported = unsupported
note_type (some reason) unsupported = unsupported ++ reason ∷ []

-- The `while stack` loop.
unfoldable pub scan_above :
    ℕ → GraphIndex → List String → List String → List String → Outcome (List String)
unfolding extend_stack note_type
scan_above fuel g seen [] unsupported = done unsupported
scan_above zero g seen (current ∷ stack) unsupported = out_of_fuel
scan_above (suc fuel) g seen (current ∷ stack) unsupported = elim (contains seen current) [
  | true ↦ scan_above fuel g seen stack unsupported
  | false ↦ elim (lookup current g.nodes) [
    | none ↦ key_error current
    | some node ↦
        scan_above fuel g (current ∷ seen) (extend_stack (edges_into g current) stack)
          (note_type (lookup node.type sql_unsupported) unsupported)
  ]
]

-- Twice as many rounds as there are edges are enough: `plan_pipeline_exact`.
unfoldable pub unsupported_above : GraphIndex → String → Outcome (List String)
unfolding scan_above
unsupported_above g node_id =
    scan_above (length g.document.edges + length g.document.edges) g []
      (extend_stack (edges_into g node_id) []) []

-- The language of an output and why it has it.
unfoldable pub assign_language : Preference → String → List String → DatasetLanguagePlan
assign_language prefer_python node_id reasons = record {
  dataset_id = node_id;
  language = python;
  reasons = "explicit Python target" ∷ [];
}
assign_language prefer_sql node_id [] = record {
  dataset_id = node_id;
  language = sql;
  reasons = "explicit SQL target" ∷ [];
}
assign_language prefer_sql node_id (reason ∷ reasons) = record {
  dataset_id = node_id;
  language = sql;
  reasons = reason ∷ reasons;
}
assign_language auto node_id [] = record {
  dataset_id = node_id;
  language = sql;
  reasons = "output subgraph is SQL-compatible" ∷ [];
}
assign_language auto node_id (reason ∷ reasons) = record {
  dataset_id = node_id;
  language = python;
  reasons = reason ∷ reasons;
}

unfoldable pub refusal : Preference → String → List String → List Problem
refusal prefer_sql node_id (reason ∷ reasons) = error_at "SDPS-CODEGEN-001" node_id ∷ []
refusal _ node_id _ = []

-- One round of the loop over the order.
unfoldable pub plan_output :
    Preference → String → List String → MixedLanguagePlan → MixedLanguagePlan
unfolding assign_language refusal
plan_output preference node_id unsupported plan =
    let reasons = sort (to_set unsupported) in
    record {
      assignments = plan.assignments ++ assign_language preference node_id reasons ∷ [];
      problems = plan.problems ++ refusal preference node_id reasons;
    }

unfoldable pub plan_outputs :
    Preference → GraphIndex → List String → MixedLanguagePlan → Outcome MixedLanguagePlan
unfolding unsupported_above plan_output
plan_outputs preference g [] plan = done plan
plan_outputs preference g (node_id ∷ order) plan = elim (lookup node_id g.nodes) [
  | none ↦ key_error node_id
  | some node ↦ elim (starts_with node.type "dataset.") [
    | false ↦ plan_outputs preference g order plan
    | true ↦ unsupported_above g node_id >>= λ unsupported.
        plan_outputs preference g order (plan_output preference node_id unsupported plan)
  ]
]

unfoldable pub plan_pipeline :
    List Operator → PipelineDocument → Preference → Outcome MixedLanguagePlan
unfolding lower_pipeline index_of topological_order graph_view plan_outputs
plan_pipeline plugins document preference = lower_pipeline plugins document >>= λ lowered.
    let g = index_of (graph_view lowered.pipeline) in
    topological_order g >>= λ order.
    plan_outputs preference g order (record { assignments = []; problems = lowered.problems })
