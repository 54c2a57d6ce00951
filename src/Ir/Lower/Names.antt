-- ===== src/Ir/Lower/Names.antt =====
-- The parameters and secrets of a lowered pipeline are the names that its nodes refer to.
use sdp_studio.Prelude.{
  String, Bool, true, List, ◌≡◌, ◌≢◌, ap, ◌∙◌, ◌↔◌, ◌&&◌, not, Memᴰ, any, any_of_mem, mem_of_any,
  contains, contains-eq-occ, arith, ◌==◌, eq_iff,
}
use sdp_studio.Prelude.Sort.{sort, count-sort_by}
use sdp_studio.Models.{Node, PipelineDocument, node_ids}
use sdp_studio.Models.Ids.{Distinct}
use sdp_studio.Operators.{Operator}
use sdp_studio.Operators.{Operator}
use sdp_studio.Graph.Index.{index_of, index_of-IsIndexOf}
use sdp_studio.Graph.Order.{done, topological_order}
use sdp_studio.Graph.Order.Drain.{TargetsKnown}
use sdp_studio.Graph.Walk.Trace.{contains-keep}
use sdp_studio.Ir.{IrLoweringResult}
use sdp_studio.Ir.Refs.{refers, texts_fields}
use sdp_studio.Ir.Lower.{named, pipeline_of, lower_pipeline}
use sdp_studio.Ir.Lower.Found.{mem_of_nodes_at, nodes_at-mem, lookup-node}
use sdp_studio.Ir.Lower.Exact.{Lowered, lower_pipeline-Lowered, nodes_of}

contains-named :
    (names : List String) (name : String)
    → contains (named names) name ≡ contains names name && not (name == "")
contains-named names name = ground (
  arith,
  contains-keep (λ n. not (n == "")) (sort names) name,
  contains-eq-occ (sort names) name,
  contains-eq-occ names name,
  count-sort_by (λ n. n) (λ n. n == name) names,
)

-- A node of the document in the order has a text that refers to the name by the scheme.
abbrev pub Mentions : PipelineDocument → List String → String → String → Type 0
Mentions document order scheme name =
    (node : Node) × Memᴰ node document.nodes
    × (contains order node.id ≡ true)
    × (s : String) × Memᴰ s (texts_fields node.config)
    × (refers scheme name s ≡ true)

module _ (plugins : List Operator) (document : PipelineDocument) (r : Lowered plugins document)
    (distinct : Distinct (node_ids document)) (scheme name : String) where
  abbrev mentioned : Bool
  mentioned = any (λ n. any (refers scheme name) (texts_fields n.config)) (nodes_of r)

  mentioned-exact : (mentioned ≡ true) ↔ Mentions document r.order scheme name
  mentioned-exact = (
    λ some_in.
        let (node, at, inside) =
          mem_of_any (λ n. any (refers scheme name) (texts_fields n.config)) (nodes_of r) some_in in
        let (v, listed, found) = mem_of_nodes_at (index_of document).nodes node r.order at in
        let (known, own) = (index_of-IsIndexOf document).own v node found in
        let (s, m, ref) = mem_of_any (refers scheme name) (texts_fields node.config) inside in
        (node, known, ap (contains r.order) own ∙ listed, s, m, ref),
    λ (node, known, listed, s, m, ref).
        let found =
          lookup-node document (index_of document) node (index_of-IsIndexOf document) distinct
            known in
        any_of_mem (λ n. any (refers scheme name) (texts_fields n.config)) node (nodes_of r)
          (nodes_at-mem (index_of document).nodes node node.id r.order listed found)
          (any_of_mem (refers scheme name) s (texts_fields node.config) m ref),
  )

  listed-exact :
      (names : List String)
      → contains names name ≡ mentioned
      → (contains (named names) name ≡ true) ↔ ((name ≢ "") × Mentions document r.order scheme name)
  listed-exact names same = (
    λ m. (
      ground (arith, contains-named names name, eq_iff name ""),
      mentioned-exact.0 (ground (arith, contains-named names name)),
    ),
    λ (full, ref). ground (arith, contains-named names name, eq_iff name "", mentioned-exact.1 ref),
  )

-- On a document with distinct node ids and no edge from a node to an unknown id, lowering completes,
-- and its parameters and its secrets are exactly the names, the empty one left out, to which a text
-- in the configuration of a node in the order refers by `parameter://` and by `secret://`, the
-- white space at both ends of the name left out.
pub lower_pipeline-refs :
    (plugins : List Operator) (document : PipelineDocument)
    → Distinct (node_ids document)
    → TargetsKnown document
    → (order : List String) × (result : IrLoweringResult) × (topological_order (index_of document)
        ≡ done order)
      × (lower_pipeline plugins document ≡ done result)
      × ((name : String)
          → ((contains result.pipeline.parameters name ≡ true)
              ↔ ((name ≢ "") × Mentions document order "parameter://" name))
            × ((contains result.pipeline.secrets name ≡ true)
                ↔ ((name ≢ "") × Mentions document order "secret://" name)))
unfolding pipeline_of
lower_pipeline-refs plugins document distinct targets =
    let r = lower_pipeline-Lowered plugins document targets in
    (
      r.order,
      record { pipeline = pipeline_of document r.parts; problems = r.problems },
      r.sorted,
      r.lowered,
      λ name. (
        listed-exact plugins document r distinct "parameter://" name r.parts.refs.parameters
            (r.filled.parameters name),
        listed-exact plugins document r distinct "secret://" name r.parts.refs.secrets
            (r.filled.secrets name),
      ),
    )
