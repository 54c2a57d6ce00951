-- ===== src/Graph/Order/Rank.antt =====
-- The topological order on a whole document: what it returns, and when it holds every node.
use sdp_studio.Prelude.{
  subst, inl, inr, Bool-cases, ◌↔◌, ℕ, zero, suc, ◌≤◌, ◌<◌, String, ◌≡◌, ap, sym, ◌∙◌, true, false,
  ◌&&◌, List, [], Memᴰ, length, length-map, count-zero, occ, contains, contains-eq-occ,
  if◌then◌else◌, arith, ◌==◌, eq_iff, eqb,
}
use sdp_studio.Prelude.Multiset.{position, length-IsSubMultiset, IsSubMultiset-antisymm}
use sdp_studio.Prelude.Dict.{Dict, keys}
use sdp_studio.Prelude.Int.{ℤ}
use sdp_studio.Prelude.Sort.{sort}
use mathlib.Core.List.{append-nil}
use sdp_studio.Models.{Edge, PipelineDocument, node_ids}
use sdp_studio.Models.Ids.{Distinct}
use sdp_studio.Graph.Index.{GraphIndex, index_of, IsIndexOf, index_of-IsIndexOf}
use sdp_studio.Graph.Order.{done, zeros, count_in, drain, ready, topological_order}
use sdp_studio.Graph.Order.Drain.{TargetsKnown, Before, blocks, blockers, Inv, drain-Inv}
use sdp_studio.Graph.Order.Start.{start, Inv-start}

-- What holds of the list that is returned.
pub record IsOrder (document : PipelineDocument) (order : List String) : Type 0 where
  pub distinct : Distinct order
  pub known : (v : String) → contains order v ≡ true → contains (node_ids document) v ≡ true
  pub forward :
      (e : Edge)
      → Memᴰ e document.edges
      → contains (node_ids document) e.from_.node ≡ true
      → contains order e.to.node ≡ true
      → Before order e.from_.node e.to.node

-- Numbers that grow along every edge between nodes: the document has no cycle.
pub record IsRanking (document : PipelineDocument) (rank : String → ℕ) : Type 0 where
  pub grows :
      (e : Edge)
      → Memᴰ e document.edges
      → contains (node_ids document) e.from_.node ≡ true
      → contains (node_ids document) e.to.node ≡ true
      → rank e.from_.node < rank e.to.node

pub topological_order-drain :
    (document : PipelineDocument) (g : GraphIndex) (indexed : IsIndexOf document g)
    → topological_order g
      ≡ drain
          (length (keys g.nodes))
          g
          (start document g indexed)
          (sort (ready (start document g indexed)))
          []
unfolding topological_order
topological_order-drain document g indexed =
    ap
      (λ (d : PipelineDocument).
        let indegree = count_in g d.edges (zeros g.nodes) in
        drain (length (keys g.nodes)) g indegree (sort (ready indegree)) [])
      indexed.same

module _ (document : PipelineDocument) where
  abbrev pub indexed : IsIndexOf document (index_of document)
  indexed = index_of-IsIndexOf document

  abbrev pub waiting : List String → String → ℕ
  waiting = blockers document (index_of document) indexed

  -- A finished run: nothing waits on the queue any more.
  pub record IsFinal (order : List String) : Type 0 where
    pub once :
        (v : String)
        → occ v order ≡ (if contains (node_ids document) v && eqb (waiting order v) 0 then 1 else 0)
    pub ordered : IsOrder document order

  pub IsFinal-of_Inv :
      (final : Dict ℤ) (r : List String)
      → Inv document (index_of document) indexed final [] r
      → IsFinal r
  IsFinal-of_Inv final r h =
      let once : (v : String)
          → occ v r ≡ (if contains (node_ids document) v && eqb (waiting r v) 0 then 1 else 0) =
        λ v. ground (arith, h.counted.once v, ap (occ v) (append-nil r), indexed.nodes v) in
      record {
        once = once;
        ordered = record {
          distinct = λ v. ground (arith, once v);
          known = λ v m. ground (arith, once v, contains-eq-occ r v);
          forward = λ e m from to. h.forward.at e m (ground (arith, indexed.nodes e.from_.node)) to;
        };
      }

  finish :
      TargetsKnown document
      → (r : List String) × (topological_order (index_of document) ≡ done r) × IsFinal r
  finish targets =
      let g = index_of document in
      let (final, r, ends, h) =
        drain-Inv document g indexed targets (length (keys g.nodes)) (start document g indexed)
          (sort (ready (start document g indexed))) [] (omega arith)
          (Inv-start document g indexed) in
      (r, topological_order-drain document g indexed ∙ ends, IsFinal-of_Inv final r h)

  -- Every node of the document is in the order.
  abbrev IsComplete : List String → Type 0
  IsComplete order = (v : String) → contains (node_ids document) v ≡ true → contains order v ≡ true

  -- With every lower node in the order, no edge into `v` waits.
  passed :
      (order : List String) (rank : String → ℕ)
      → IsFinal order
      → IsRanking document rank
      → (n : ℕ) (v : String) → rank v < suc n
      → contains (node_ids document) v ≡ true
      → (e : Edge) → Memᴰ e document.edges
      → ((u : String)
          → rank u < n
          → contains (node_ids document) u ≡ true
          → contains order u ≡ true)
      → blocks document (index_of document) indexed order v e ≡ false
  passed order rank h k n v lt known e m below = elim (Bool-cases (e.to.node == v)) [
    | inl here ↦
        let q = (eq_iff e.to.node v).0 here in
        ground (
          arith,
          ap rank q,
          ap (contains (node_ids document)) q,
          indexed.nodes e.from_.node,
          k.grows e m,
          below e.from_.node,
        )
    | inr off ↦ ground arith
  ]

  pub ranked-IsComplete :
      (order : List String) (rank : String → ℕ)
      → IsFinal order
      → IsRanking document rank
      → (n : ℕ) (v : String) → rank v < n
      → contains (node_ids document) v ≡ true
      → contains order v ≡ true
  ranked-IsComplete order rank h k zero v lt known = absurd (omega arith)
  ranked-IsComplete order rank h k (suc n) v lt known =
      let free : waiting order v ≡ 0 =
        count-zero (blocks document (index_of document) indexed order v) document.edges (λ e m.
          passed order rank h k n v lt known e m (λ u. ranked-IsComplete order rank h k n u)) in
      ground (arith, h.once v, contains-eq-occ order v)

  occ-le-of_complete :
      (order : List String)
      → Distinct (node_ids document)
      → IsComplete order
      → (v : String) → occ v (node_ids document) ≤ occ v order
  occ-le-of_complete order d h v =
      ground (arith, d v, h v, contains-eq-occ order v, contains-eq-occ (node_ids document) v)

  occ-le-of_order :
      (order : List String)
      → IsOrder document order
      → (v : String) → occ v order ≤ occ v (node_ids document)
  occ-le-of_order order h v = ground (
    arith,
    h.distinct v,
    h.known v,
    contains-eq-occ order v,
    contains-eq-occ (node_ids document) v,
  )

  complete_iff_ranked :
      (order : List String)
      → Distinct (node_ids document)
      → IsFinal order
      → (length order ≡ length (node_ids document))
        ↔ ((rank : String → ℕ) × IsRanking document rank)
  complete_iff_ranked order d h = (
    λ same. (
      λ v. position v order,
      record {
        grows = λ e m from to.
            (h.ordered.forward e m from (
              ground (
                arith,
                IsSubMultiset-antisymm order (node_ids document) (occ-le-of_order order h.ordered)
                    same e.to.node,
                contains-eq-occ order e.to.node,
                contains-eq-occ (node_ids document) e.to.node,
              ))).earlier;
      },
    ),
    λ (rank, k). omega (
      arith,
      length-IsSubMultiset (node_ids document) order (
          occ-le-of_complete order d
            (λ v. ranked-IsComplete order rank h k (suc (rank v)) v (omega arith))),
      length-IsSubMultiset order (node_ids document) (occ-le-of_order order h.ordered),
    ),
  )

-- If no edge leads from a node of the document to an id that is not in it, the order is computed
-- without a missing key, holds node ids only, none twice, and every edge between nodes whose target
-- is in the order has its source in the order, before the target.
pub topological_order-IsOrder :
    (document : PipelineDocument)
    → TargetsKnown document
    → (order : List String) × (topological_order (index_of document) ≡ done order)
      × IsOrder document order
topological_order-IsOrder document targets =
    let (order, ends, h) = finish document targets in (order, ends, h.ordered)

-- On a document with distinct node ids and known targets, the order is as long as the list of nodes
-- (the test by which `validate_graph` reports a cycle) exactly when the nodes can be ranked so
-- that every edge between nodes goes up, that is, when the graph has no cycle.
pub topological_order_exact :
    (document : PipelineDocument)
    → Distinct (node_ids document)
    → TargetsKnown document
    → (order : List String) × (topological_order (index_of document) ≡ done order)
      × ((length order ≡ length document.nodes) ↔ ((rank : String → ℕ) × IsRanking document rank))
topological_order_exact document d targets =
    let (order, ends, h) = finish document targets in
    let exact = complete_iff_ranked document order d h in
    let size = length-map document.nodes (λ n. n.id) in
    (order, ends, (λ same. exact.0 (same ∙ sym size), λ ranked. exact.1 ranked ∙ size))

-- With known targets and no cycle, every node is in the order.
pub topological_order_complete :
    (document : PipelineDocument) (order : List String) (rank : String → ℕ)
    → TargetsKnown document
    → IsRanking document rank
    → topological_order (index_of document) ≡ done order
    → (v : String) → contains (node_ids document) v ≡ true
    → contains order v ≡ true
topological_order_complete document order rank targets ranked sorted v known =
    let (order', ends, h) = finish document targets in
    let same : order' ≡ order = ground (arith, sorted, ends) in
    subst (λ l. contains l v ≡ true) same
      (ranked-IsComplete document order' rank h ranked (suc (rank v)) v (omega arith) known)
