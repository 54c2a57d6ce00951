-- ===== src/Graph/Validate/Sound.antt =====
-- The whole validation reports no error exactly on the sound documents.
use sdp_studio.Prelude.{
  ◌↔◌, ℕ, String, ◌≡◌, refl, ap, ◌∙◌, Bool, true, false, not, ◌&&◌, ◌||◌, List, ◌++◌, Memᴰ, any,
  length, contains, eqb, arith,
}
use sdp_studio.Prelude.Dict.{Dict}
use sdp_studio.Models.{Edge, PipelineDocument, Problem, node_ids}
use sdp_studio.Models.Ids.{Distinct}
use sdp_studio.Models.Problems.{has_errors, has_errors-append}
use sdp_studio.Operators.{Operator}
use sdp_studio.Graph.Index.{GraphIndex, index_of, index_of-IsIndexOf}
use sdp_studio.Graph.Order.{done, key_error}
use sdp_studio.Graph.Order.Missing.{topological_order-key_error}
use sdp_studio.Graph.Order.Drain.{TargetsKnown}
use sdp_studio.Graph.Order.Rank.{IsRanking, topological_order_exact}
use sdp_studio.Graph.Validate.{
  operator_catalog, builtin_registry, node_problems, problem_if, edge_problems, gather,
  input_problems, is_output, advice, cycle_detected, no_declared_output, report, validate_graph,
}
use sdp_studio.Graph.Validate.Describe.{IsSound}
use sdp_studio.Graph.Validate.Clean.{gather_clean, node_clean, edge_clean}
use sdp_studio.Graph.Validate.Ports.{inputs_clean, advice_clean}

tail_errors :
    (b c : Bool) (ps : List Problem)
    → has_errors ps ≡ false
    → has_errors (problem_if b cycle_detected ++ (problem_if c no_declared_output ++ ps)) ≡ b
tail_errors true c ps h = refl
tail_errors false true ps h = h
tail_errors false false ps h = h

-- The report has no error if its parts have none.
report_lem :
    (ops registry : Dict Operator) (g : GraphIndex) (document : PipelineDocument)
    (order : List String)
    → has_errors (report ops registry g document order)
      ≡ has_errors (gather (node_problems ops registry) document.nodes)
        || (has_errors (gather (edge_problems ops g) document.edges)
            || (has_errors (gather (input_problems ops g) document.nodes)
                || not (eqb (length order) (length document.nodes))))
unfolding report
report_lem ops registry g document order =
    let nodes = gather (node_problems ops registry) document.nodes in
    let edges = gather (edge_problems ops g) document.edges in
    let inputs = gather (input_problems ops g) document.nodes in
    let cyclic = not (eqb (length order) (length document.nodes)) in
    let bare = not (eqb (length document.nodes) 0) && not (any is_output document.nodes) in
    let hints = gather advice document.nodes in
    let tail = problem_if cyclic cycle_detected ++ (problem_if bare no_declared_output ++ hints) in
    has_errors-append nodes (edges ++ (inputs ++ tail))
    ∙ ap (λ b. has_errors nodes || b) (has_errors-append edges (inputs ++ tail))
    ∙ ap (λ b. has_errors nodes || (has_errors edges || b)) (has_errors-append inputs tail)
    ∙ ap (λ b. has_errors nodes || (has_errors edges || (has_errors inputs || b)))
        (tail_errors cyclic bare hints
          ((gather_clean advice document.nodes).1 (λ n m. advice_clean n)))

module _ (plugins : List Operator) (document : PipelineDocument) where
  abbrev ops : Dict Operator
  ops = operator_catalog plugins

  abbrev registry : Dict Operator
  registry = builtin_registry plugins

  abbrev g : GraphIndex
  g = index_of document

  IsSound-of_clean :
      (order : List String)
      → ((length order ≡ length document.nodes) ↔ ((rank : String → ℕ) × IsRanking document rank))
      → has_errors (report ops registry g document order) ≡ false
      → IsSound plugins document
  IsSound-of_clean order exact h =
      let parts = report_lem ops registry g document order in
      record {
        nodes = λ node m. (node_clean ops registry node).0 (
            (gather_clean (node_problems ops registry) document.nodes).0 (ground (arith, parts))
              node m);
        edges = λ edge m.
            (edge_clean ops registry g edge).0 (
              (gather_clean (edge_problems ops g) document.edges).0 (ground (arith, parts)) edge m);
        ports = λ node m.
            (inputs_clean document g (index_of-IsIndexOf document) ops node).0 (
              (gather_clean (input_problems ops g) document.nodes).0 (ground (arith, parts)) node
                m);
        acyclic = exact.0 (ground (arith, parts));
      }

  clean-of_IsSound :
      (order : List String)
      → ((length order ≡ length document.nodes) ↔ ((rank : String → ℕ) × IsRanking document rank))
      → IsSound plugins document
      → has_errors (report ops registry g document order) ≡ false
  clean-of_IsSound order exact s = ground (
    arith,
    report_lem ops registry g document order,
    (gather_clean (node_problems ops registry) document.nodes).1
        (λ node m. (node_clean ops registry node).1 (s.nodes node m)),
    (gather_clean (edge_problems ops g) document.edges).1
        (λ edge m. (edge_clean ops registry g edge).1 (s.edges edge m)),
    (gather_clean (input_problems ops g) document.nodes).1 (λ node m.
        (inputs_clean document g (index_of-IsIndexOf document) ops node).1 (s.ports node m)),
    exact.1 s.acyclic,
  )

-- On a document with distinct node ids and no edge from a node to an unknown id, validation
-- completes, and reports no error exactly if the document is sound: every node has an operator of
-- the catalogue, all its required fields and no exposed literal; every edge joins two nodes at ports
-- that their operators have, in a mode that the target supports; every input port has one edge, or
-- none if it is optional, or several if it takes many; and the edges between nodes have no cycle.
pub validate_graph_exact :
    (plugins : List Operator) (document : PipelineDocument)
    → Distinct (node_ids document)
    → TargetsKnown document
    → (problems : List Problem) × (validate_graph plugins document ≡ done problems)
      × ((has_errors problems ≡ false) ↔ IsSound plugins document)
unfolding validate_graph
validate_graph_exact plugins document distinct targets =
    let (order, ends, exact) = topological_order_exact document distinct targets in
    (
      report (operator_catalog plugins) (builtin_registry plugins) (index_of document) document
          order,
      rw (ends, validate_graph),
      (
        IsSound-of_clean plugins document order exact,
        clean-of_IsSound plugins document order exact,
      ),
    )

-- The report is never made for a document without cycles that has an edge from a node to an id that
-- is not in it: the whole validation stops with the missing key.
pub validate_graph-key_error :
    (plugins : List Operator) (document : PipelineDocument) (rank : String → ℕ) (e : Edge)
    → IsRanking document rank
    → Memᴰ e document.edges
    → contains (node_ids document) e.from_.node ≡ true
    → contains (node_ids document) e.to.node ≡ false
    → (k : String) × (validate_graph plugins document ≡ key_error k)
      × (contains (node_ids document) k ≡ false)
unfolding validate_graph
validate_graph-key_error plugins document rank e ranked m from to =
    let (k, stops, outside) = topological_order-key_error document rank e ranked m from to in
    (k, rw (stops, validate_graph), outside)
