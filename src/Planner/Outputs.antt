-- ===== src/Planner/Outputs.antt =====
-- The outputs of a document, as a plan lists them.
use text.Mathlib.Text.{starts_with}
use sdp_studio.Prelude.{
  map, String, true, false, List, [], ◌++◌, ◌≡◌, sym, ap, ◌∙◌, ◌↔◌, inl, inr, subst, Option-cases,
  some, Memᴰ, keep, keep_of_mem, mem_of_keep, contains, any_of_mem, mem_of_map, map-mem,
  mem_of_contains, arith, eq_refl, ◌==◌,
}
use sdp_studio.Prelude.Dict.{lookup}
use sdp_studio.Models.{Problem, Node, PipelineDocument, node_ids}
use sdp_studio.Models.Ids.{Distinct}
use sdp_studio.Models.Problems.{has_errors}
use sdp_studio.Operators.{Operator}
use sdp_studio.Graph.Index.{GraphIndex, index_of, index_of-IsIndexOf}
use sdp_studio.Graph.Order.{done}
use sdp_studio.Graph.Order.Drain.{TargetsKnown}
use sdp_studio.Graph.Order.Rank.{IsRanking, topological_order-IsOrder, topological_order_complete}
use sdp_studio.Graph.Walk.Reach.{Leads, widen, reverse-Trail}
use sdp_studio.Graph.Validate.{gather}
use sdp_studio.Graph.Validate.Describe.{IsSound}
use sdp_studio.Graph.Validate.Sound.{validate_graph_exact}
use sdp_studio.Ir.{IrNode}
use sdp_studio.Ir.View.{graph_view, view_node, edge_of_view, view-edge, node_ids-graph_view}
use sdp_studio.Ir.Lower.{ir_node, pipeline_of}
use sdp_studio.Ir.Lower.Found.{same_node}
use sdp_studio.Ir.Lower.Exact.{Lowered, in_order, lower_pipeline-Lowered, origin_of, run-ids}
use sdp_studio.Planner.{
  Preference, MixedLanguagePlan, assign_language, refusal, unsupported_above, plan_pipeline,
  sql_unsupported,
}
use sdp_studio.Planner.Walk.{SourcesKnown, unsupported_above-exact, Blocked}
use sdp_studio.Planner.Assign.{
  is_output_id, reasons_of, contains-reasons_of, assigned, refused, plan_outputs-lists,
}

-- An output of the document.
abbrev pub IsOutput : PipelineDocument → String → Type 0
IsOutput document v =
    (node : Node) × Memᴰ node document.nodes
    × (node.id ≡ v)
    × (starts_with node.type "dataset." ≡ true)

-- From a node of a type that SQL cannot express, one or more edges lead to the id.
abbrev pub NeedsPython : PipelineDocument → String → String → Type 0
NeedsPython document v why =
    (node : Node) × Memᴰ node document.nodes
    × Leads document node.id v
    × (lookup node.type sql_unsupported ≡ some why)

-- What the plans of a document are made of: its outputs in the order of the plan, the reasons against
-- SQL at each, and the problems of the validation.
pub record Planned (plugins : List Operator) (document : PipelineDocument) : Type 0 where
  pub outputs : List String
  pub reasons : String → List String
  pub problems : List Problem
  pub plans :
      (preference : Preference)
      → plan_pipeline plugins document preference
        ≡ done (record {
          assignments = map (λ v. assign_language preference v (reasons v)) outputs;
          problems = problems ++ gather (λ v. refusal preference v (reasons v)) outputs;
        })
  pub needs : (v why : String) → (contains (reasons v) why ≡ true) ↔ NeedsPython document v why
  pub lists : (v : String) → Memᴰ v outputs ↔ IsOutput document v
  pub clean : has_errors problems ≡ false

module _ (plugins : List Operator) (document : PipelineDocument)
    (distinct : Distinct (node_ids document)) (sound : IsSound plugins document) where
  targets : TargetsKnown document
  targets e m _ =
      ground (arith, (sound.edges e m).to_target, (index_of-IsIndexOf document).nodes e.to.node)

  sources : SourcesKnown document
  sources e m =
      ground
        (arith, (sound.edges e m).from_source, (index_of-IsIndexOf document).nodes e.from_.node)

  r : Lowered plugins document
  r = lower_pipeline-Lowered plugins document targets

  abbrev view : PipelineDocument
  view = graph_view (pipeline_of document r.parts)

  abbrev g : GraphIndex
  g = index_of view

  ids-view : node_ids view ≡ r.order
  ids-view = node_ids-graph_view (pipeline_of document r.parts) ∙ run-ids plugins document r

  complete : (v : String) → contains (node_ids document) v ≡ true → contains r.order v ≡ true
  complete =
      topological_order_complete document r.order sound.acyclic.0 targets sound.acyclic.1 r.sorted

  complete_view : (v : String) → contains (node_ids document) v ≡ contains (node_ids view) v
  complete_view v = ground (arith, complete v, r.ordered.known v, ap (λ l. contains l v) ids-view)

  sources_view : SourcesKnown view
  sources_view e m =
      sym (complete_view e.from_.node) ∙ sources e (edge_of_view document r.parts e m)

  targets_view : TargetsKnown view
  targets_view e m from =
      sym (complete_view e.to.node)
      ∙ targets e (edge_of_view document r.parts e m) (complete_view e.from_.node ∙ from)

  IsRanking-view : IsRanking view sound.acyclic.0
  IsRanking-view = record {
    grows = λ e m from to.
        sound.acyclic.1.grows e (edge_of_view document r.parts e m)
          (complete_view e.from_.node ∙ from) (complete_view e.to.node ∙ to);
  }

  -- A node of the view has the id and the type of a node of the document.
  view_lookup :
      (v : String) (n : Node)
      → lookup v g.nodes ≡ some n
      → (node : Node) × Memᴰ node document.nodes × (node.id ≡ v) × (node.type ≡ n.type)
  unfolding graph_view view_node ir_node
  view_lookup v n found =
      let (m, own) = (index_of-IsIndexOf view).own v n found in
      let (part, at, made) = mem_of_map view_node n (pipeline_of document r.parts).nodes m in
      let (node, inside, listed, e) = origin_of plugins document r part at in
      (
        node,
        inside,
        sym (ap (λ (w : Node). w.id) made ∙ ap (λ (w : IrNode). w.id) e) ∙ own,
        sym (ap (λ (w : Node). w.type) made ∙ ap (λ (w : IrNode). w.operator) e),
      )

  view_found :
      (node : Node)
      → Memᴰ node document.nodes
      → (n : Node) × (lookup node.id g.nodes ≡ some n) × (n.type ≡ node.type)
  view_found node m = elim (Option-cases (lookup node.id g.nodes)) [
    | inl missing ↦ absurd (
        ground (
          arith,
          (index_of-IsIndexOf view).nodes node.id,
          complete_view node.id,
          any_of_mem (λ v. v == node.id) node.id (node_ids document)
              (map-mem (λ (w : Node). w.id) node document.nodes m) (eq_refl node.id),
        ))
    | inr (n, found) ↦
        let (other, inside, id, type) = view_lookup node.id n found in
        (
          n,
          found,
          sym type
              ∙ ap (λ (w : Node). w.type)
                  (same_node other node document.nodes distinct inside m id),
        )
  ]

  above :
      (v : String)
      → (us : List String) × (unsupported_above g v ≡ done us)
        × ((why : String)
            → (contains us why ≡ true)
              ↔ Blocked view g (index_of-IsIndexOf view) sources_view v why)
  above v = unsupported_above-exact view g (index_of-IsIndexOf view) sources_view v

  abbrev reasons : String → List String
  reasons v = reasons_of (above v).0

  reasons-exact : (v why : String) → (contains (reasons v) why ≡ true) ↔ NeedsPython document v why
  reasons-exact v why = (
    λ m.
        let (u, n, up, found, reason) =
          ((above v).2 why).0 (sym (contains-reasons_of (above v).0 why) ∙ m) in
        let (node, inside, id, type) = view_lookup u n found in
        (
          node,
          inside,
          subst (λ w. Leads document w v) (sym id)
              (reverse-Trail (widen (edge_of_view document r.parts) up)),
          ap (λ t. lookup t sql_unsupported) type ∙ reason,
        ),
    λ (node, inside, leads, reason).
        let (n, found, type) = view_found node inside in
        contains-reasons_of (above v).0 why
        ∙ ((above v).2 why).1 (
          node.id,
          n,
          widen (view-edge document r.parts) (reverse-Trail leads),
          found,
          ap (λ t. lookup t sql_unsupported) type ∙ reason,
        ),
  )

  order : List String
  order = (topological_order-IsOrder view targets_view).0

  known_view : (v : String) → contains order v ≡ true → (n : Node) × (lookup v g.nodes ≡ some n)
  unfolding order
  known_view v m =
      in_order view g order (index_of-IsIndexOf view)
        (topological_order-IsOrder view targets_view).2 v m

  output_type :
      (v : String) (n : Node)
      → lookup v g.nodes ≡ some n
      → is_output_id g.nodes v ≡ true
      → starts_with n.type "dataset." ≡ true
  output_type v n found output = rw found at output

  IsOutput-exact :
      (v : String)
      → IsOutput document v ↔ ((contains order v ≡ true) × (is_output_id g.nodes v ≡ true))
  unfolding order
  IsOutput-exact v = (
    λ (node, inside, id, type).
        let (n, found, same) = view_found node inside in
        let at = ap (λ u. lookup u g.nodes) (sym id) ∙ found in
        (
          topological_order_complete view order sound.acyclic.0 targets_view IsRanking-view
              (topological_order-IsOrder view targets_view).1 v
              (ground (arith, (index_of-IsIndexOf view).nodes v)),
          rw at (ap (λ t. starts_with t "dataset.") same ∙ type),
        ),
    λ (m, output).
        let (n, found) = known_view v m in
        let (node, inside, id, type) = view_lookup v n found in
        (node, inside, id, ap (λ t. starts_with t "dataset.") type ∙ output_type v n found output),
  )

  plan_of : Preference → MixedLanguagePlan
  plan_of preference = record {
    assignments = assigned preference g (λ v. (above v).0) (λ v. (above v).1) order;
    problems = r.problems ++ refused preference g (λ v. (above v).0) (λ v. (above v).1) order;
  }

  plan_pipeline-plan_of :
      (preference : Preference)
      → plan_pipeline plugins document preference ≡ done (plan_of preference)
  unfolding plan_pipeline order plan_of
  plan_pipeline-plan_of preference =
      rw (r.lowered, (topological_order-IsOrder view targets_view).1)
        (plan_outputs-lists preference g (λ v. (above v).0) (λ v. (above v).1) order
          (record { assignments = []; problems = r.problems }) known_view)

  problems-clean : has_errors r.problems ≡ false
  problems-clean =
      let (problems, ends, exact) = validate_graph_exact plugins document distinct targets in
      let same : problems ≡ r.problems = ground (arith, ends, r.validated) in
      ap has_errors (sym same) ∙ exact.1 sound

  listed : (v : String) → Memᴰ v (keep (is_output_id g.nodes) order) ↔ IsOutput document v
  listed v = (
    λ m.
        let (inside, kept) = mem_of_keep (is_output_id g.nodes) v order m in
        (IsOutput-exact v).1 (any_of_mem (λ w. w == v) v order inside (eq_refl v), kept),
    λ output.
        let (m, kept) = (IsOutput-exact v).0 output in
        keep_of_mem (is_output_id g.nodes) v order (mem_of_contains v order m) kept,
  )

  pub planned : Planned plugins document
  unfolding plan_of
  planned = record {
    outputs = keep (is_output_id g.nodes) order;
    reasons = reasons;
    problems = r.problems;
    plans = plan_pipeline-plan_of;
    needs = reasons-exact;
    lists = listed;
    clean = problems-clean;
  }
