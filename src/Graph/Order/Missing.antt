-- ===== src/Graph/Order/Missing.antt =====
-- An edge that leads out of the document: the topological order stops at it.
use sdp_studio.Prelude.{
  inl, inr, ◌⊎◌, ℕ, zero, suc, ◌+◌, String, ◌≡◌, refl, sym, ◌∙◌, true, false, ◌&&◌, not, List, [],
  ◌∷◌, ◌++◌, Memᴰ, length, length-append, count, count-zero, false_of_count, contains, arith, ◌==◌,
  eq_iff,
}
use sdp_studio.Prelude.Multiset.{contains-append}
use sdp_studio.Prelude.Dict.{Dict, keys}
use sdp_studio.Prelude.Int.{ℤ}
use sdp_studio.Prelude.Sort.{sort}
use sdp_studio.Models.{Edge, PipelineDocument, node_ids}
use sdp_studio.Graph.Index.{GraphIndex, IsIndexOf, index_of}
use sdp_studio.Graph.Order.{done, key_error, ready, drain, topological_order}
use sdp_studio.Graph.Order.Relax.{relax_cases}
use sdp_studio.Graph.Order.Drain.{
  inside, blockers, outgoing, count-outgoing, Inv, round-IsCounted, round-IsForward, room,
}
use sdp_studio.Graph.Order.Start.{start, Inv-start}
use sdp_studio.Graph.Order.Rank.{
  IsRanking, IsFinal-of_Inv, topological_order-drain, indexed, ranked-IsComplete,
}

module _ (document : PipelineDocument) (g : GraphIndex) (indexed : IsIndexOf document g) where
  -- Every edge out of the order so far had a known target.
  abbrev IsMet : List String → Type 0
  IsMet order =
      (e : Edge)
      → Memᴰ e document.edges
      → contains order e.from_.node ≡ true
      → inside document g indexed e.to.node ≡ true

  IsMet-append :
      (order : List String) (u : String)
      → IsMet order
      → ((e : Edge)
          → Memᴰ e (outgoing document g indexed u)
          → inside document g indexed e.to.node ≡ true)
      → IsMet (order ++ u ∷ [])
  IsMet-append order u met now e m from =
      let bad = λ (d : Edge). not (inside document g indexed d.to.node) in
      let none_bad : count (λ d. d.from_.node == u && bad d) document.edges ≡ 0 =
        sym (count-outgoing document g indexed bad u)
        ∙ count-zero bad (outgoing document g indexed u)
            (λ d in_out. ground (arith, now d in_out)) in
      ground (
        arith,
        met e m,
        contains-append order (u ∷ []) e.from_.node,
        eq_iff u e.from_.node,
        eq_iff e.from_.node u,
        false_of_count (λ d. d.from_.node == u && bad d) e document.edges none_bad m,
      )

  drain_cases :
      (fuel : ℕ) (indegree : Dict ℤ) (queue order : List String)
      → length order + fuel ≡ length (keys g.nodes)
      → Inv document g indexed indegree queue order
      → IsMet order
      → ((final : Dict ℤ) × (r : List String) × (drain fuel g indegree queue order ≡ done r)
          × Inv document g indexed final [] r
          × IsMet r)
        ⊎ ((k : String) × (drain fuel g indegree queue order ≡ key_error k)
            × (inside document g indexed k ≡ false))
  unfolding drain
  drain_cases zero indegree [] order e h met = inl (indegree, order, refl, h, met)
  drain_cases zero indegree (u ∷ queue) order e h met =
      absurd (omega (arith, room document g indexed indegree (u ∷ queue) order h))
  drain_cases (suc fuel) indegree [] order e h met = inl (indegree, order, refl, h, met)
  drain_cases (suc fuel) indegree (u ∷ queue) order e h met =
      let order' = order ++ u ∷ [] in
      elim (relax_cases (inside document g indexed) (blockers document g indexed order') order'
        (outgoing document g indexed u) indegree queue
        (round-IsCounted document g indexed indegree u queue order h)) [
          | inr (k, stops, outside) ↦ inr (k, rw (stops, drain) refl, outside)
          | inl ((indegree', queue'), ends, counted, now) ↦
              elim (drain_cases fuel indegree' queue' order'
                (omega (arith, length-append order (u ∷ [])))
                (record {
                  counted = counted;
                  forward = round-IsForward document g indexed indegree u queue order h;
                })
                (IsMet-append order u met now)) [
                  | inl (final, r, result, last, met') ↦
                      inl (final, r, rw (ends, drain) result, last, met')
                  | inr (k, stops, outside) ↦ inr (k, rw (ends, drain) stops, outside)
                ]
        ]

-- In a document whose edges between nodes can be ranked (no cycle), one edge from a node to an id
-- that is not in the document makes the order raise `KeyError` at such an id.
pub topological_order-key_error :
    (document : PipelineDocument) (rank : String → ℕ) (e : Edge)
    → IsRanking document rank
    → Memᴰ e document.edges
    → contains (node_ids document) e.from_.node ≡ true
    → contains (node_ids document) e.to.node ≡ false
    → (k : String) × (topological_order (index_of document) ≡ key_error k)
      × (contains (node_ids document) k ≡ false)
topological_order-key_error document rank e ranked m from to =
    let g = index_of document in
    let whole = topological_order-drain document g (indexed document) in
    elim (drain_cases document g (indexed document) (length (keys g.nodes))
      (start document g (indexed document)) (sort (ready (start document g (indexed document)))) []
      (omega arith) (Inv-start document g (indexed document)) (λ d in_doc out. cc)) [
        | inl (final, r, ends, h, met) ↦
            let all_in =
              ranked-IsComplete document r rank (IsFinal-of_Inv document final r h) ranked
                (suc (rank e.from_.node)) e.from_.node (omega arith) from in
            absurd (ground (arith, met e m all_in, (indexed document).nodes e.to.node))
        | inr (k, stops, outside) ↦ (k, whole ∙ stops, sym ((indexed document).nodes k) ∙ outside)
      ]
