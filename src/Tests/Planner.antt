-- ===== src/Tests/Planner.antt =====
-- A pipeline with two outputs, one of them below a node that SQL cannot express, and the lowering
-- and the plans of it.
use sdp_studio.Prelude.{
  String, ◌≡◌, ◌≢◌, refl, ap, ◌↔◌, true, false, List, [], ◌∷◌, map, Bool, arith, Memᴰ, contains,
}
use sdp_studio.Prelude.Dict.{lookup, insert}
use sdp_studio.Prelude.Sort.{sort_by}
use sdp_studio.Prelude.Text.{strip, remove_prefix, is_within}
use sdp_studio.Json.{Json, Items, Fields, end, field}
use sdp_studio.Models.{Node, Edge, PipelineDocument, to_set, node_ids, ensure_unique_ids, valid}
use sdp_studio.Models.Ids.{Distinct, ensure_unique_ids-valid_iff}
use sdp_studio.Models.Problems.{has_errors}
use sdp_studio.Operators.{catalog, register_all}
use sdp_studio.Graph.Index.{index_of}
use sdp_studio.Graph.Order.{Outcome, done, key_error, topological_order}
use sdp_studio.Graph.Order.Drain.{TargetsKnown}
use sdp_studio.Graph.Order.Checks.{TargetsKnown-of_check}
use sdp_studio.Graph.Secrets.{is_marked}
use sdp_studio.Graph.Validate.{validate_graph}
use sdp_studio.Graph.Validate.Describe.{IsSound}
use sdp_studio.Graph.Validate.Sound.{validate_graph_exact}
use sdp_studio.Ir.{streaming, IrNode, IrLoweringResult}
use sdp_studio.Ir.Freeze.{key, look, thaw, freeze, freeze_fields, thaw-freeze}
use sdp_studio.Ir.Modes.{Streams}
use sdp_studio.Ir.Lower.{expression_for, ir_node, lower_pipeline}
use sdp_studio.Ir.Lower.Exact.{lower_pipeline-nodes, lower_pipeline-modes}
use sdp_studio.Ir.Lower.Names.{Mentions, lower_pipeline-refs}
use sdp_studio.Planner.{python, sql}
use sdp_studio.Planner.{
  DatasetLanguagePlan, MixedLanguagePlan, auto, prefer_sql, plan_pipeline, sql_unsupported,
}
use sdp_studio.Planner.Outputs.{IsOutput, NeedsPython}
use sdp_studio.Planner.Exact.{plan_pipeline-auto, plan_pipeline-sql}

abbrev node : String → String → Fields → Node
node id type config = record { id = id; type = type; operator_version = 1; config = config }

abbrev edge : String → String → String → Edge
edge id source target = record {
  id = id;
  from_ = record { node = source; port = "out" };
  to = record { node = target; port = "in" };
}

abbrev kafka : Fields
kafka =
    field "subscribe" (Json.str "parameter:// topic ")
      (field "bootstrapServers" (Json.str "secret://BROKERS") end)

abbrev mixed : PipelineDocument
mixed = record {
  schema_version = 1;
  pipeline_id = "p";
  name = "main";
  revision = 0;
  nodes =
      node "c" "dataset.streaming_table" (field "name" (Json.str "slim") end)
      ∷ node "a" "source.kafka" kafka
      ∷ node "b" "transform.drop"
          (field "columns" (Json.list (Items.cons (Json.str "x") Items.nil)) end)
      ∷ node "d" "dataset.streaming_table" (field "name" (Json.str "full") end)
      ∷ [];
  edges = edge "e1" "a" "b" ∷ edge "e2" "b" "c" ∷ edge "e3" "a" "d" ∷ [];
}

-- A node that feeds a cycle.
abbrev fed_cycle : PipelineDocument
fed_cycle = record {
  schema_version = 1;
  pipeline_id = "p";
  name = "main";
  revision = 0;
  nodes =
      node "a" "source.kafka" kafka
      ∷ node "b" "transform.union" end
      ∷ node "c" "transform.distinct" end
      ∷ [];
  edges = edge "e1" "a" "b" ∷ edge "e2" "b" "c" ∷ edge "e3" "c" "b" ∷ [];
}

mixed_validates : validate_graph [] mixed ≡ done []
unfolding validate_graph lookup insert sort_by is_marked catalog register_all
mixed_validates = refl

mixed_plans :
    plan_pipeline [] mixed auto
    ≡ done (record {
      assignments =
          record {
            dataset_id = "d";
            language = sql;
            reasons = "output subgraph is SQL-compatible" ∷ [];
          }
          ∷ record {
            dataset_id = "c";
            language = python;
            reasons = "drop requires explicit SQL projection columns" ∷ [];
          }
          ∷ [];
      problems = [];
    })
unfolding plan_pipeline lookup insert sort_by is_marked catalog register_all sql_unsupported strip
    remove_prefix is_within ir_node to_set
mixed_plans = refl

abbrev has_errors_of : Outcome IrLoweringResult → Bool
has_errors_of (done result) = has_errors result.problems
has_errors_of _ = false

-- A cycle is a problem of the report, but the plan is never made: the view leaves the nodes of the
-- cycle out and keeps the edge to them.
fed_cycle_plans :
    (has_errors_of (lower_pipeline [] fed_cycle) ≡ true)
    × (plan_pipeline [] fed_cycle auto ≡ key_error "b")
unfolding plan_pipeline lookup insert sort_by is_marked catalog register_all sql_unsupported strip
    remove_prefix is_within ir_node to_set
fed_cycle_plans = (refl, refl)

mixed_unique : ensure_unique_ids mixed ≡ valid mixed
unfolding ensure_unique_ids
mixed_unique = refl

mixed-Distinct : Distinct (node_ids mixed)
mixed-Distinct = ((ensure_unique_ids-valid_iff mixed).0 mixed_unique).0

mixed_known : TargetsKnown mixed
mixed_known = TargetsKnown-of_check mixed refl

mixed-IsSound : IsSound [] mixed
mixed-IsSound =
    let (problems, ends, exact) = validate_graph_exact [] mixed mixed-Distinct mixed_known in
    let clean : problems ≡ [] = ground (arith, ends, mixed_validates) in
    exact.0 (ap has_errors clean)

thaw-freeze_example :
    look (key "subscribe" ∷ []) (thaw (freeze (Json.dict kafka)))
    ≡ look (key "subscribe" ∷ []) (Json.dict kafka)
thaw-freeze_example = thaw-freeze (key "subscribe" ∷ []) (Json.dict kafka)

lower_pipeline-nodes_example :
    (order : List String) × (result : IrLoweringResult) × (topological_order (index_of mixed)
      ≡ done order)
    × (lower_pipeline [] mixed ≡ done result)
    × (validate_graph [] mixed ≡ done result.problems)
    × (map (λ n. n.id) result.pipeline.nodes ≡ order)
    × ((n : IrNode)
        → Memᴰ n result.pipeline.nodes
        → (node : Node) × Memᴰ node mixed.nodes
          × (n.id ≡ node.id)
          × (n.operator ≡ node.type)
          × (n.config ≡ freeze_fields node.config)
          × (n.expression ≡ expression_for node))
lower_pipeline-nodes_example = lower_pipeline-nodes [] mixed mixed_known

lower_pipeline-modes_example :
    (result : IrLoweringResult) × (lower_pipeline [] mixed ≡ done result)
    × ((n : IrNode)
        → Memᴰ n result.pipeline.nodes
        → (n.mode ≡ streaming) ↔ Streams mixed (index_of mixed).nodes n.id)
lower_pipeline-modes_example = lower_pipeline-modes [] mixed mixed_known

lower_pipeline-refs_example :
    (order : List String) × (result : IrLoweringResult) × (topological_order (index_of mixed)
      ≡ done order)
    × (lower_pipeline [] mixed ≡ done result)
    × ((name : String)
        → ((contains result.pipeline.parameters name ≡ true)
            ↔ ((name ≢ "") × Mentions mixed order "parameter://" name))
          × ((contains result.pipeline.secrets name ≡ true)
              ↔ ((name ≢ "") × Mentions mixed order "secret://" name)))
lower_pipeline-refs_example = lower_pipeline-refs [] mixed mixed-Distinct mixed_known

plan_pipeline-auto_example :
    (plan : MixedLanguagePlan) × (plan_pipeline [] mixed auto ≡ done plan)
    × ((v : String)
        → IsOutput mixed v
          ↔ ((a : DatasetLanguagePlan) × Memᴰ a plan.assignments × (a.dataset_id ≡ v)))
    × ((a : DatasetLanguagePlan)
        → Memᴰ a plan.assignments
        → ((a.language ≡ python) ↔ ((why : String) × NeedsPython mixed a.dataset_id why))
          × ((a.language ≡ sql) ↔ ((why : String) → ¬ NeedsPython mixed a.dataset_id why)))
plan_pipeline-auto_example = plan_pipeline-auto [] mixed mixed-Distinct mixed-IsSound

plan_pipeline-sql_example :
    (plan : MixedLanguagePlan) × (plan_pipeline [] mixed prefer_sql ≡ done plan)
    × ((has_errors plan.problems ≡ false)
        ↔ ((v : String) → IsOutput mixed v → (why : String) → ¬ NeedsPython mixed v why))
plan_pipeline-sql_example = plan_pipeline-sql [] mixed mixed-Distinct mixed-IsSound
