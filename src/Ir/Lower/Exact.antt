-- ===== src/Ir/Lower/Exact.antt =====
-- The lowering as a whole: the nodes in order, and their modes.
use sdp_studio.Prelude.{
  String, true, List, [], ◌∷◌, map, Option, none, some, ◌≡◌, refl, ap, sym, ◌∙◌, ◌↔◌, inl, inr,
  Option-cases, Memᴰ, mem_of_map, contains, arith, subst,
}
use sdp_studio.Prelude.Dict.{Dict, lookup}
use sdp_studio.Models.{Node, PipelineDocument, Problem}
use sdp_studio.Operators.{Operator}
use sdp_studio.Operators.{Operator}
use sdp_studio.Graph.Index.{GraphIndex, index_of, IsIndexOf, index_of-IsIndexOf}
use sdp_studio.Graph.Order.{done, topological_order}
use sdp_studio.Graph.Order.Drain.{TargetsKnown}
use sdp_studio.Graph.Order.Rank.{IsOrder, topological_order-IsOrder}
use sdp_studio.Graph.Validate.{report, operator_catalog, builtin_registry, validate_graph}
use sdp_studio.Ir.{Mode, streaming, batch, IrNode, IrLoweringResult}
use sdp_studio.Ir.Freeze.{freeze_fields}
use sdp_studio.Ir.Modes.{Streams, is_streaming}
use sdp_studio.Ir.Modes.Exact.{Assigned, assign_modes-Assigned}
use sdp_studio.Ir.Lower.{Parts, expression_for, no_parts, ir_node, pipeline_of, lower_pipeline}
use sdp_studio.Ir.Lower.Nodes.{
  nodes_at, mode_at, fold_parts, PartsOf, fold_parts-PartsOf, lower_nodes-fold,
}
use sdp_studio.Ir.Lower.Found.{mem_of_nodes_at, map-nodes_at}

-- A lowering that has run, with what its loops computed.
pub record Lowered (plugins : List Operator) (document : PipelineDocument) : Type 0 where
  pub order : List String
  pub sorted : topological_order (index_of document) ≡ done order
  pub ordered : IsOrder document order
  pub modes : Dict Mode
  pub assigned : Assigned document (index_of document) (index_of-IsIndexOf document) order modes
  pub parts : Parts
  pub filled : PartsOf modes (nodes_at (index_of document).nodes order) parts
  pub problems : List Problem
  pub validated : validate_graph plugins document ≡ done problems
  pub lowered :
      lower_pipeline plugins document
      ≡ done (record { pipeline = pipeline_of document parts; problems = problems })

pub in_order :
    (document : PipelineDocument) (g : GraphIndex) (order : List String)
    → IsIndexOf document g
    → IsOrder document order
    → (v : String) → contains order v ≡ true
    → (n : Node) × (lookup v g.nodes ≡ some n)
in_order document g order indexed ordered v m = elim (Option-cases (lookup v g.nodes)) [
  | inl missing ↦ absurd (ground (arith, indexed.nodes v, ordered.known v m))
  | inr found ↦ found
]

pub lower_pipeline-Lowered :
    (plugins : List Operator) (document : PipelineDocument)
    → TargetsKnown document
    → Lowered plugins document
unfolding lower_pipeline validate_graph
lower_pipeline-Lowered plugins document targets =
    let g = index_of document in
    let indexed = index_of-IsIndexOf document in
    let (order, sorted, ordered) = topological_order-IsOrder document targets in
    let (modes, given, assigned) = assign_modes-Assigned document g indexed order ordered in
    let parts = fold_parts modes (nodes_at g.nodes order) no_parts in
    let filled =
      lower_nodes-fold g modes order no_parts (in_order document g order indexed ordered) in
    let problems = report (operator_catalog plugins) (builtin_registry plugins) g document order in
    record {
      order = order;
      sorted = sorted;
      ordered = ordered;
      modes = modes;
      assigned = assigned;
      parts = parts;
      filled = fold_parts-PartsOf modes (nodes_at g.nodes order);
      problems = problems;
      validated = rw (sorted, validate_graph) refl;
      lowered = rw (sorted, validate_graph, given, filled) refl;
    }

default-streaming :
    (o : Option Mode) → (elim o [ none ↦ batch | some m ↦ m ] ≡ streaming) ↔ (is_streaming o ≡ true)
default-streaming none = (λ e. cc, λ e. cc)
default-streaming (some batch) = (λ e. cc, λ e. cc)
default-streaming (some streaming) = (λ e. refl, λ e. refl)

ids-ir_node :
    (modes : Dict Mode) (ns : List Node)
    → map (λ n. n.id) (map (λ n. ir_node n (mode_at modes n)) ns) ≡ map (λ n. n.id) ns
unfolding ir_node
ids-ir_node modes [] = refl
ids-ir_node modes (n ∷ ns) = ap (λ l. n.id ∷ l) (ids-ir_node modes ns)

abbrev pub nodes_of :
    {plugins : List Operator} {document : PipelineDocument} → Lowered plugins document → List Node
nodes_of {document = document} r = nodes_at (index_of document).nodes r.order

module _ (plugins : List Operator) (document : PipelineDocument)
    (r : Lowered plugins document) where
  -- The node that a part of the representation stands for.
  pub origin_of :
      (n : IrNode)
      → Memᴰ n (pipeline_of document r.parts).nodes
      → (node : Node) × Memᴰ node document.nodes
        × (contains r.order node.id ≡ true)
        × (n ≡ ir_node node (mode_at r.modes node))
  unfolding pipeline_of
  origin_of n m =
      let (node, at, e) =
        mem_of_map (λ w. ir_node w (mode_at r.modes w)) n (nodes_of r)
          (subst (λ l. Memᴰ n l) r.filled.nodes m) in
      let (v, listed, found) = mem_of_nodes_at (index_of document).nodes node r.order at in
      let (inside, own) = (index_of-IsIndexOf document).own v node found in
      (node, inside, ap (contains r.order) own ∙ listed, e)

  -- One node for each id of the order.
  pub run-ids : map (λ n. n.id) (pipeline_of document r.parts).nodes ≡ r.order
  unfolding pipeline_of
  run-ids =
      ap (map (λ (n : IrNode). n.id)) r.filled.nodes
      ∙ ids-ir_node r.modes (nodes_of r)
      ∙ map-nodes_at (index_of document).nodes r.order (λ v m.
        let indexed = index_of-IsIndexOf document in
        let (n, found) = in_order document (index_of document) r.order indexed r.ordered v m in
        (n, found, (indexed.own v n found).1))

  mode_at-streaming :
      (node : Node)
      → contains r.order node.id ≡ true
      → (mode_at r.modes node ≡ streaming) ↔ Streams document (index_of document).nodes node.id
  mode_at-streaming node listed =
      let right = r.assigned.right node.id listed in
      let same = default-streaming (lookup node.id r.modes) in
      (λ e. right.0 (same.0 e), λ s. same.1 (right.1 s))

-- If no edge leads from a node of the document to an id that is not in it, lowering completes, with
-- the report of the validation. The representation has one node for each id of the topological
-- order, in that order, and each has the operator, the frozen configuration and the expression of
-- the document's node with its id.
pub lower_pipeline-nodes :
    (plugins : List Operator) (document : PipelineDocument)
    → TargetsKnown document
    → (order : List String) × (result : IrLoweringResult) × (topological_order (index_of document)
        ≡ done order)
      × (lower_pipeline plugins document ≡ done result)
      × (validate_graph plugins document ≡ done result.problems)
      × (map (λ n. n.id) result.pipeline.nodes ≡ order)
      × ((n : IrNode)
          → Memᴰ n result.pipeline.nodes
          → (node : Node) × Memᴰ node document.nodes
            × (n.id ≡ node.id)
            × (n.operator ≡ node.type)
            × (n.config ≡ freeze_fields node.config)
            × (n.expression ≡ expression_for node))
unfolding pipeline_of ir_node
lower_pipeline-nodes plugins document targets =
    let r = lower_pipeline-Lowered plugins document targets in
    (
      r.order,
      record { pipeline = pipeline_of document r.parts; problems = r.problems },
      r.sorted,
      r.lowered,
      r.validated,
      run-ids plugins document r,
      λ n m.
          let (node, inside, listed, e) = origin_of plugins document r n m in
          (
            node,
            inside,
            ap (λ (w : IrNode). w.id) e,
            ap (λ (w : IrNode). w.operator) e,
            ap (λ (w : IrNode). w.config) e,
            ap (λ (w : IrNode). w.expression) e,
          ),
    )

-- If no edge leads from a node of the document to an id that is not in it, lowering completes, and a
-- node of the representation runs as a stream exactly if its node is a source that is read as a
-- stream, or is no source and an edge leads to it from a node that is reached by a stream.
pub lower_pipeline-modes :
    (plugins : List Operator) (document : PipelineDocument)
    → TargetsKnown document
    → (result : IrLoweringResult) × (lower_pipeline plugins document ≡ done result)
      × ((n : IrNode)
          → Memᴰ n result.pipeline.nodes
          → (n.mode ≡ streaming) ↔ Streams document (index_of document).nodes n.id)
unfolding ir_node
lower_pipeline-modes plugins document targets =
    let r = lower_pipeline-Lowered plugins document targets in
    (
      record { pipeline = pipeline_of document r.parts; problems = r.problems },
      r.lowered,
      λ n m.
          let (node, inside, listed, e) = origin_of plugins document r n m in
          subst
            (λ (w : IrNode). (w.mode ≡ streaming) ↔ Streams document (index_of document).nodes w.id)
            (sym e) (mode_at-streaming plugins document r node listed),
    )
