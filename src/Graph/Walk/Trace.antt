-- ===== src/Graph/Walk/Trace.antt =====
-- A trace is the part of the order that leads to a node.
use sdp_studio.Prelude.{
  String, ◌≡◌, refl, ap, ◌⊎◌, inl, inr, ◌↔◌, Bool, Bool-cases, true, ◌&&◌, ◌||◌, List, [], ◌∷◌,
  keep, contains, arith, ◌==◌, eq_iff,
}
use sdp_studio.Models.{PipelineDocument}
use sdp_studio.Graph.Index.{index_of}
use sdp_studio.Graph.Order.{done, topological_order}
use sdp_studio.Graph.Order.Drain.{TargetsKnown}
use sdp_studio.Graph.Order.Rank.{topological_order-IsOrder}
use sdp_studio.Graph.Walk.{both, trace_to_sources}
use sdp_studio.Graph.Walk.Reach.{Leads, ancestors_exact}

pub contains-keep :
    (p : String → Bool) (xs : List String) (v : String)
    → contains (keep p xs) v ≡ contains xs v && p v
contains-keep p [] v = refl
contains-keep p (x ∷ xs) v = elim (Bool-cases (x == v)) [
  | inl same ↦ ground (arith, contains-keep p xs v, ap p ((eq_iff x v).0 same))
  | inr other ↦ ground (arith, contains-keep p xs v)
]

traced : (above order : List String) (node_id : String) → List String
traced above order node_id = keep (λ n. contains above n || n == node_id) order

-- If no edge leads from a node of the document to an id that is not in it, the trace of a node is
-- computed without a missing key, and holds exactly the ids of the topological order that are the
-- node or lead to it by one or more edges.
pub trace_to_sources_exact :
    (document : PipelineDocument) (node_id : String)
    → TargetsKnown document
    → (order : List String) × (r : List String) × (topological_order (index_of document)
        ≡ done order)
      × (trace_to_sources (index_of document) node_id ≡ done r)
      × ((v : String)
          → (contains r v ≡ true)
            ↔ ((contains order v ≡ true) × (Leads document v node_id ⊎ (v ≡ node_id))))
unfolding trace_to_sources both traced
trace_to_sources_exact document node_id targets =
    let (order, sorted, _) = topological_order-IsOrder document targets in
    let (above, walked, exact) = ancestors_exact document node_id in
    (
      order,
      traced above order node_id,
      sorted,
      rw (walked, sorted) refl,
      λ v. (
        λ m.
            let parts = contains-keep (λ n. contains above n || n == node_id) order v in
            let listed : contains order v ≡ true = ground arith in
            let reason : contains above v || v == node_id ≡ true = ground arith in
            (
              listed,
              elim (Bool-cases (contains above v)) [
                | inl up ↦ inl ((exact v).0 up)
                | inr off ↦ inr ((eq_iff v node_id).0 (ground arith))
              ],
            ),
        λ (listed, reason).
            let parts = contains-keep (λ n. contains above n || n == node_id) order v in
            elim reason [
              | inl t ↦ ground (arith, (exact v).1 t)
              | inr q ↦ ground (arith, (eq_iff v node_id).1 q)
            ],
      ),
    )
