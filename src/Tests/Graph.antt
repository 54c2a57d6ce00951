-- ===== src/Tests/Graph.antt =====
-- A pipeline of three nodes, one with an edge that leads nowhere, and one with a cycle.
use sdp_studio.Prelude.{
  ℕ, String, ◌≡◌, refl, ◌↔◌, true, false, List, [], ◌∷◌, Memᴰ, length, contains, if◌then◌else◌,
  ◌==◌,
}
use sdp_studio.Prelude.Dict.{lookup, insert}
use sdp_studio.Json.{Json, Fields, end, field}
use sdp_studio.Models.{Node, Edge, PipelineDocument, Problem, node_ids, ensure_unique_ids, valid}
use sdp_studio.Models.Ids.{Distinct, ensure_unique_ids-valid_iff}
use sdp_studio.Models.Problems.{has_errors}
use sdp_studio.Graph.Index.{index_of, IsIndexOf, index_of-IsIndexOf}
use sdp_studio.Graph.Order.{done, key_error, topological_order}
use sdp_studio.Graph.Order.Drain.{TargetsKnown}
use sdp_studio.Graph.Order.Rank.{
  IsOrder, IsRanking, topological_order-IsOrder, topological_order_exact,
}
use sdp_studio.Graph.Order.Checks.{TargetsKnown-of_check, IsRanking-of_check}
use sdp_studio.Graph.Walk.{ancestors, descendants}
use sdp_studio.Graph.Walk.Reach.{Leads, ancestors_exact}
use sdp_studio.Prelude.Sort.{sort_by}
use sdp_studio.Operators.{catalog, register_all}
use sdp_studio.Graph.Secrets.{is_marked, is_literal, secret_literal_problems}
use sdp_studio.Graph.Secrets.Exposure.{ExposedFields, secret_literal_problems_exact}
use sdp_studio.Graph.Validate.{validate_graph}
use sdp_studio.Graph.Validate.Describe.{IsSound}
use sdp_studio.Graph.Validate.Sound.{validate_graph_exact, validate_graph-key_error}

abbrev node : String → String → Fields → Node
node id type config = record { id = id; type = type; operator_version = 1; config = config }

abbrev edge : String → String → String → String → Edge
edge id source target port = record {
  id = id;
  from_ = record { node = source; port = "out" };
  to = record { node = target; port = port };
}

abbrev pipeline : List Edge → PipelineDocument
pipeline edges = record {
  schema_version = 1;
  pipeline_id = "p";
  name = "main";
  revision = 0;
  nodes =
      node "c" "dataset.materialized_view" (field "name" (Json.str "gold") end)
      ∷ node "a" "source.table" (field "table" (Json.str "raw") end)
      ∷ node "b" "transform.filter" (field "expression" (Json.str "x > 1") end)
      ∷ [];
  edges = edges;
}

abbrev straight : PipelineDocument
straight = pipeline (edge "e1" "a" "b" "in" ∷ edge "e2" "b" "c" "in" ∷ [])

abbrev dangling : PipelineDocument
dangling = pipeline (edge "e1" "a" "b" "in" ∷ edge "e2" "b" "gone" "in" ∷ [])

abbrev cyclic : PipelineDocument
cyclic = pipeline (edge "e1" "c" "b" "in" ∷ edge "e2" "b" "c" "in" ∷ [])

straight_runs : topological_order (index_of straight) ≡ done ("a" ∷ "b" ∷ "c" ∷ [])
unfolding topological_order index_of lookup insert sort_by
straight_runs = refl

cyclic_runs : topological_order (index_of cyclic) ≡ done ("a" ∷ [])
unfolding topological_order index_of lookup insert sort_by
cyclic_runs = refl

dangling_runs : topological_order (index_of dangling) ≡ key_error "gone"
unfolding topological_order index_of lookup insert sort_by
dangling_runs = refl

straight_validates : validate_graph [] straight ≡ done []
unfolding validate_graph lookup insert sort_by is_marked catalog register_all
straight_validates = refl

straight_walks :
    (ancestors (index_of straight) "c" ≡ done ("a" ∷ "b" ∷ []))
    × (descendants (index_of straight) "a" ≡ done ("c" ∷ "b" ∷ []))
unfolding ancestors descendants index_of lookup insert
straight_walks = (refl, refl)

straight_unique : ensure_unique_ids straight ≡ valid straight
unfolding ensure_unique_ids
straight_unique = refl

straight-Distinct : Distinct (node_ids straight)
straight-Distinct = ((ensure_unique_ids-valid_iff straight).0 straight_unique).0

straight_known : TargetsKnown straight
straight_known = TargetsKnown-of_check straight refl

abbrev level : String → ℕ
level v = if v == "a" then 0 else if v == "b" then 1 else 2

dangling_ranked : IsRanking dangling level
dangling_ranked = IsRanking-of_check dangling level refl

index_of-IsIndexOf_example : IsIndexOf straight (index_of straight)
index_of-IsIndexOf_example = index_of-IsIndexOf straight

topological_order-IsOrder_example :
    (order : List String) × (topological_order (index_of straight) ≡ done order)
    × IsOrder straight order
topological_order-IsOrder_example = topological_order-IsOrder straight straight_known

topological_order_exact_example :
    (order : List String) × (topological_order (index_of straight) ≡ done order)
    × ((length order ≡ 3) ↔ ((rank : String → ℕ) × IsRanking straight rank))
topological_order_exact_example = topological_order_exact straight straight-Distinct straight_known

ancestors_exact_example :
    (r : List String) × (ancestors (index_of cyclic) "c" ≡ done r)
    × ((u : String) → (contains r u ≡ true) ↔ Leads cyclic u "c")
ancestors_exact_example = ancestors_exact cyclic "c"

abbrev leaky : Fields
leaky = field "options" (Json.dict (field "dbPassword" (Json.str "hunter2") end)) end

leaky_runs : has_errors (secret_literal_problems "a" leaky) ≡ true
unfolding secret_literal_problems is_marked is_literal
leaky_runs = refl

secret_literal_problems_exact_example :
    (has_errors (secret_literal_problems "a" leaky) ≡ true) ↔ ExposedFields leaky
secret_literal_problems_exact_example = secret_literal_problems_exact "a" leaky

validate_graph_exact_example :
    (problems : List Problem) × (validate_graph [] straight ≡ done problems)
    × ((has_errors problems ≡ false) ↔ IsSound [] straight)
validate_graph_exact_example = validate_graph_exact [] straight straight-Distinct straight_known

validate_graph-key_error_example :
    (k : String) × (validate_graph [] dangling ≡ key_error k)
    × (contains (node_ids dangling) k ≡ false)
validate_graph-key_error_example =
    validate_graph-key_error [] dangling level (edge "e2" "b" "gone" "in") dangling_ranked
      (Memᴰ.tail (Memᴰ.head refl)) refl refl
