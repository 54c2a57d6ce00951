-- ===== src/Graph/Order/Drain.antt =====
-- The outer loop of the topological order: it ends within as many rounds as there are nodes, meets
-- no missing key where the targets are known, and leaves every edge pointing forward.
use sdp_studio.Prelude.{
  inl, inr, Bool-cases, ℕ, zero, suc, ◌+◌, ◌≤◌, ◌<◌, String, ◌≡◌, refl, ap, ◌∙◌, Bool, true, false,
  ◌&&◌, not, List, [], ◌∷◌, ◌++◌, Memᴰ, length, length-append, count, count-zero, count-split,
  count-keep, false_of_count, occ, contains, contains-eq-occ, count-append, if◌then◌else◌, arith,
  ◌==◌, eq_iff, eq_refl,
}
use mathlib.Core.List.{append_assoc}
use sdp_studio.Prelude.Multiset.{
  length-IsSubMultiset, position, contains-append, position-append_left, position-append_right,
  position-lt-length,
}
use sdp_studio.Prelude.Dict.{Dict, has, keys}
use sdp_studio.Prelude.Int.{ℤ}
use sdp_studio.Prelude.Sort.{sort_by, count-sort_by}
use sdp_studio.Models.{Edge, PipelineDocument, node_ids}
use sdp_studio.Graph.Index.{GraphIndex, IsIndexOf, edges_from}
use sdp_studio.Graph.Order.{done, relax, drain}
use sdp_studio.Graph.Order.Relax.{hits, IsCounted, relax-IsCounted}

-- No edge leads from a node of the table to an id that is not in it.
abbrev pub TargetsKnown : PipelineDocument → Type 0
TargetsKnown document =
    (e : Edge)
    → Memᴰ e document.edges
    → contains (node_ids document) e.from_.node ≡ true
    → contains (node_ids document) e.to.node ≡ true

-- `u` stands before `v`.
pub record Before (order : List String) (u v : String) : Type 0 where
  pub member : contains order u ≡ true
  pub earlier : position u order < position v order

module _ (document : PipelineDocument) (g : GraphIndex) (indexed : IsIndexOf document g) where
  abbrev pub inside : String → Bool
  inside v = has g.nodes v

  -- An edge into `v` from a node that has not been put into the order yet.
  abbrev pub blocks : List String → String → Edge → Bool
  blocks order v e = e.to.node == v && (inside e.from_.node && not (contains order e.from_.node))

  abbrev pub blockers : List String → String → ℕ
  blockers order v = count (blocks order v) document.edges

  abbrev pub outgoing : String → List Edge
  outgoing u = sort_by (λ e. e.id) (edges_from g u)

  pub record IsForward (order : List String) : Type 0 where
    pub at :
        (e : Edge)
        → Memᴰ e document.edges
        → inside e.from_.node ≡ true
        → contains order e.to.node ≡ true
        → Before order e.from_.node e.to.node

  pub record Inv (indegree : Dict ℤ) (queue order : List String) : Type 0 where
    pub counted : IsCounted inside (blockers order) order [] indegree queue
    pub forward : IsForward order

  pub count-outgoing :
      (p : Edge → Bool) (u : String)
      → count p (outgoing u) ≡ count (λ e. e.from_.node == u && p e) document.edges
  count-outgoing p u =
      count-sort_by (λ e. e.id) p (edges_from g u)
      ∙ ap (count p) (indexed.from u)
      ∙ count-keep p (λ e. e.from_.node == u) document.edges

  split-blocks :
      (order : List String) (u v : String) (e : Edge)
      → inside u ≡ true
      → contains order u ≡ false
      → (if blocks order v e then 1 else 0)
        ≡ (if blocks (order ++ u ∷ []) v e then 1 else 0)
          + (if e.from_.node == u && e.to.node == v then 1 else 0)
  split-blocks order u v e known fresh = elim (Bool-cases (e.from_.node == u)) [
    | inl own ↦
        let q = (eq_iff e.from_.node u).0 own in
        ground (
          arith,
          ap inside q,
          ap (contains order) q,
          contains-append order (u ∷ []) e.from_.node,
          eq_iff u e.from_.node,
        )
    | inr other ↦ ground (
      arith,
      contains-append order (u ∷ []) e.from_.node,
      eq_iff u e.from_.node,
      eq_iff e.from_.node u,
    )
  ]

  -- Putting `u` into the order takes away its own edges.
  blockers-append :
      (order : List String) (u v : String)
      → inside u ≡ true
      → contains order u ≡ false
      → blockers order v ≡ blockers (order ++ u ∷ []) v + hits v (outgoing u)
  blockers-append order u v known fresh = rw count-outgoing (
      count-split (blocks order v) (blocks (order ++ u ∷ []) v)
        (λ e. e.from_.node == u && e.to.node == v) document.edges
        (λ e. split-blocks order u v e known fresh))

  -- What the queue says of its first id.
  head_facts :
      (indegree : Dict ℤ) (u : String) (queue order : List String)
      → Inv indegree (u ∷ queue) order
      → (inside u ≡ true) × (contains order u ≡ false) × (blockers order u ≡ 0)
  head_facts indegree u queue order h = ground (
    arith,
    h.counted.once u,
    count-append (λ x. x == u) order (u ∷ queue),
    contains-eq-occ order u,
    eq_refl u,
  )

  target_known :
      TargetsKnown document
      → (u : String) → inside u ≡ true
      → (d : Edge) → Memᴰ d document.edges
      → d.from_.node == u && not (inside d.to.node) ≡ false
  target_known targets u known d m = elim (Bool-cases (d.from_.node == u)) [
    | inl own ↦ ground (
      arith,
      ap inside ((eq_iff d.from_.node u).0 own),
      targets d m,
      indexed.nodes d.from_.node,
      indexed.nodes d.to.node,
    )
    | inr other ↦ ground arith
  ]

  outgoing_known :
      TargetsKnown document
      → (u : String) → inside u ≡ true
      → (e : Edge) → Memᴰ e (outgoing u)
      → inside e.to.node ≡ true
  outgoing_known targets u known e m =
      let bad = λ (d : Edge). not (inside d.to.node) in
      let none_bad : count bad (outgoing u) ≡ 0 =
        count-outgoing bad u
        ∙ count-zero (λ d. d.from_.node == u && bad d) document.edges
            (λ d in_doc. target_known targets u known d in_doc) in
      ground (arith, false_of_count bad e (outgoing u) none_bad m)

  IsForward-append :
      (order : List String) (u : String)
      → contains order u ≡ false
      → blockers order u ≡ 0
      → IsForward order
      → IsForward (order ++ u ∷ [])
  IsForward-append order u fresh free h = record {
    at = λ e m from to. elim (Bool-cases (contains order e.to.node)) [
      | inl old ↦
          let b = h.at e m from old in
          record {
            member = ground (arith, contains-append order (u ∷ []) e.from_.node, b.member);
            earlier =
                rw
                  (
                    position-append_left e.from_.node order (u ∷ []) b.member,
                    position-append_left e.to.node order (u ∷ []) old,
                  )
                  b.earlier;
          }
      | inr new ↦
          let q : e.to.node ≡ u = (eq_iff e.to.node u).0 (
            ground (
              arith,
              contains-append order (u ∷ []) e.to.node,
              eq_iff u e.to.node,
              eq_iff e.to.node u,
            )) in
          let seen : contains order e.from_.node ≡ true = ground (
            arith,
            false_of_count (blocks order u) e document.edges free m,
            (eq_iff e.to.node u).1 q,
          ) in
          record {
            member = ground (arith, contains-append order (u ∷ []) e.from_.node, seen);
            earlier = omega (
              arith,
              position-append_left e.from_.node order (u ∷ []) seen,
              position-lt-length e.from_.node order seen,
              ap (λ w. position w (order ++ u ∷ [])) q,
              position-append_right u order [] fresh,
            );
          }
    ];
  }

  -- The counters as the inner loop finds them, when `u` has left the queue.
  pub round-IsCounted :
      (indegree : Dict ℤ) (u : String) (queue order : List String)
      → Inv indegree (u ∷ queue) order
      → IsCounted inside (blockers (order ++ u ∷ [])) (order ++ u ∷ []) (outgoing u) indegree queue
  round-IsCounted indegree u queue order h =
      let (known, fresh, free) = head_facts indegree u queue order h in
      record {
        counter = λ v. ground (arith, h.counted.counter v, blockers-append order u v known fresh);
        once = λ v. ground (
          arith,
          h.counted.once v,
          blockers-append order u v known fresh,
          ap (occ v) (append_assoc order (u ∷ []) queue),
        );
      }

  pub round-IsForward :
      (indegree : Dict ℤ) (u : String) (queue order : List String)
      → Inv indegree (u ∷ queue) order
      → IsForward (order ++ u ∷ [])
  round-IsForward indegree u queue order h =
      let (known, fresh, free) = head_facts indegree u queue order h in
      IsForward-append order u fresh free h.forward

  Inv-round :
      (indegree : Dict ℤ) (u : String) (queue order : List String)
      → TargetsKnown document
      → Inv indegree (u ∷ queue) order
      → (r : Dict ℤ × List String) × (relax (outgoing u) indegree queue ≡ done r)
        × Inv r.0 r.1 (order ++ u ∷ [])
  Inv-round indegree u queue order targets h =
      let order' = order ++ u ∷ [] in
      let (r, ends, counted) =
        relax-IsCounted inside (blockers order') order' (outgoing u) indegree queue
          (outgoing_known targets u (head_facts indegree u queue order h).0)
          (round-IsCounted indegree u queue order h) in
      (r, ends, record { counted = counted; forward = round-IsForward indegree u queue order h })

  -- No more ids are on the way than the table has.
  pub room :
      (indegree : Dict ℤ) (queue order : List String)
      → Inv indegree queue order
      → length order + length queue ≤ length (keys g.nodes)
  room indegree queue order h = omega (
    arith,
    length-append order queue,
    length-IsSubMultiset (order ++ queue) (keys g.nodes)
        (λ v. ground (arith, h.counted.once v, indexed.unique.once v)),
  )

  pub drain-Inv :
      TargetsKnown document
      → (fuel : ℕ) (indegree : Dict ℤ) (queue order : List String)
      → length order + fuel ≡ length (keys g.nodes)
      → Inv indegree queue order
      → (final : Dict ℤ) × (r : List String) × (drain fuel g indegree queue order ≡ done r)
        × Inv final [] r
  unfolding drain
  drain-Inv targets zero indegree [] order e h = (indegree, order, refl, h)
  drain-Inv targets zero indegree (u ∷ queue) order e h =
      absurd (omega (arith, room indegree (u ∷ queue) order h))
  drain-Inv targets (suc fuel) indegree [] order e h = (indegree, order, refl, h)
  drain-Inv targets (suc fuel) indegree (u ∷ queue) order e h =
      let ((indegree', queue'), ends, h') = Inv-round indegree u queue order targets h in
      let (final, r, result, last) =
        drain-Inv targets fuel indegree' queue' (order ++ u ∷ [])
          (omega (arith, length-append order (u ∷ []))) h' in
      (final, r, rw (ends, drain) result, last)
