-- ===== src/Graph/Walk/Reach.antt =====
-- The graph walks return exactly the ids that a trail of edges leads to.
use sdp_studio.Prelude.{
  subst, ◌⊎◌, inl, inr, Bool-cases, ◌↔◌, ℕ, zero, suc, ◌+◌, ◌≤◌, ◌<◌, String, ◌≡◌, refl, ap, sym,
  ◌∙◌, true, not, List, [], ◌∷◌, Memᴰ, length, count-le-length, any_of_mem, mem_of_any, keep,
  keep_of_mem, mem_of_keep, contains, arith, ◌==◌, eq_iff, eq_refl,
}
use sdp_studio.Models.{Edge, PipelineDocument}
use sdp_studio.Graph.Index.{
  GraphIndex, index_of, IsIndexOf, index_of-IsIndexOf, edges_into, edges_from,
}
use sdp_studio.Graph.Order.{done}
use sdp_studio.Graph.Walk.{visit, walk, source_of, target_of, ancestors, descendants}
use sdp_studio.Graph.Walk.Visit.{
  contains-visit_seen, contains-visit_stack, ends_at, unseen, visit_cost,
}

-- One or more edges, each entered at its `near` end and left at its `far` end.
pub data Trail (near far : Edge → String) (edges : List Edge) (start : String)
    : String → Type 0 where
  first :
      {p : String} (e : Edge)
      → Memᴰ e edges
      → near e ≡ start
      → far e ≡ p
      → Trail near far edges start p
  onward :
      {q p : String} (e : Edge)
      → Trail near far edges start q
      → Memᴰ e edges
      → near e ≡ q
      → far e ≡ p
      → Trail near far edges start p

-- A trail from `u` down to `v` along the edges of the document.
abbrev pub Leads : PipelineDocument → String → String → Type 0
Leads document u v = Trail source_of target_of document.edges u v

module _ (near far : Edge → String) (edges : List Edge) (table : String → List Edge)
    (table_lem : (v : String) → table v ≡ keep (λ e. near e == v) edges) (start : String) where
  record Inv (seen stack : List String) : Type 0 where
    sound : (p : String) → contains seen p ≡ true → Trail near far edges start p
    queued : (p : String) → contains stack p ≡ true → (start ≡ p) ⊎ (contains seen p ≡ true)
    closed :
        (e : Edge)
        → Memᴰ e edges
        → (start ≡ near e) ⊎ (contains seen (near e) ≡ true)
        → (contains stack (near e) ≡ true) ⊎ (contains seen (far e) ≡ true)

  Inv-start : Inv [] (start ∷ [])
  Inv-start = record {
    sound = λ p h. cc;
    queued = λ p h. inl (ground (arith, eq_iff start p));
    closed = λ e m h. ground (arith, eq_iff start (near e));
  }

  -- From the id on top of the stack an edge leads on.
  extend :
      (current : String)
      → (start ≡ current) ⊎ Trail near far edges start current
      → (p : String) → ends_at far p (table current) ≡ true
      → Trail near far edges start p
  extend current from p h =
      let (e, m, at) = mem_of_any (λ e. far e == p) (table current) h in
      let (in_edges, here) =
        mem_of_keep (λ d. near d == current) e edges
          (subst (λ l. Memᴰ e l) (table_lem current) m) in
      let q = (eq_iff (near e) current).0 here in
      let to = (eq_iff (far e) p).0 at in
      elim from [ inl s ↦ first e in_edges (q ∙ sym s) to | inr t ↦ onward e t in_edges q to ]

  table_mem : (current : String) (e : Edge) → Memᴰ e (table current) → Memᴰ e edges
  table_mem current e m =
      (mem_of_keep (λ d. near d == current) e edges (subst (λ l. Memᴰ e l) (table_lem current) m)).0

  -- Each edge of the document that starts at `current` is visited.
  touched :
      (current : String) (e : Edge)
      → Memᴰ e edges
      → near e == current ≡ true
      → ends_at far (far e) (table current) ≡ true
  touched current e m here =
      any_of_mem (λ d. far d == far e) e (table current)
        (subst (λ l. Memᴰ e l) (sym (table_lem current))
          (keep_of_mem (λ d. near d == current) e edges m here))
        (eq_refl (far e))

  reached :
      (seen stack : List String) (current : String)
      → Inv seen (current ∷ stack)
      → (start ≡ current) ⊎ Trail near far edges start current
  reached seen stack current h = elim (h.queued current (ground (arith, eq_refl current))) [
    | inl s ↦ inl s
    | inr m ↦ inr (h.sound current m)
  ]

  Inv-round :
      (seen stack : List String) (current : String)
      → Inv seen (current ∷ stack)
      → Inv (visit far (table current) seen stack).0 (visit far (table current) seen stack).1
  Inv-round seen stack current h = record {
    sound = λ p m. elim (Bool-cases (contains seen p)) [
      | inl old ↦ h.sound p old
      | inr new ↦
          extend current (reached seen stack current h) p
            (ground (arith, contains-visit_seen far (table current) seen stack p))
    ];
    queued = λ p m. ground (
      arith,
      h.queued p,
      contains-visit_seen far (table current) seen stack p,
      contains-visit_stack far (table current) seen stack p,
    );
    closed = λ e m from. ground (
      arith,
      h.closed e m,
      touched current e m,
      eq_iff current (near e),
      eq_iff (near e) current,
      contains-visit_seen far (table current) seen stack (near e),
      contains-visit_seen far (table current) seen stack (far e),
      contains-visit_stack far (table current) seen stack (near e),
    );
  }

  walk-Inv :
      (fuel : ℕ) (seen stack : List String)
      → length stack + unseen far edges seen ≤ fuel
      → Inv seen stack
      → (r : List String) × (walk fuel table far seen stack ≡ done r) × Inv r []
  unfolding walk
  walk-Inv zero seen [] e h = (seen, refl, h)
  walk-Inv zero seen (x ∷ stack) e h = absurd (omega arith)
  walk-Inv (suc fuel) seen [] e h = (seen, refl, h)
  walk-Inv (suc fuel) seen (current ∷ stack) e h =
      walk-Inv fuel (visit far (table current) seen stack).0
        (visit far (table current) seen stack).1
        (omega (arith, visit_cost far edges (table current) seen stack (table_mem current)))
        (Inv-round seen stack current h)

  complete :
      (r : List String)
      → Inv r []
      → {p : String} → Trail near far edges start p
      → contains r p ≡ true
  complete r h (first e m from to) = rw (← to) (ground (arith, h.closed e m (inl (sym from))))
  complete r h (onward e t m from to) =
      let before = ap (contains r) from ∙ complete r h t in
      rw (← to) (ground (arith, h.closed e m (inr before)))

  pub walk_exact :
      (fuel : ℕ)
      → length edges < fuel
      → (r : List String) × (walk fuel table far [] (start ∷ []) ≡ done r)
        × ((p : String) → (contains r p ≡ true) ↔ Trail near far edges start p)
  walk_exact fuel enough =
      let (r, ends, h) =
        walk-Inv fuel [] (start ∷ [])
          (omega (arith, count-le-length (λ e. not (contains [] (far e))) edges)) Inv-start in
      (r, ends, λ p. (h.sound p, complete r h))

-- A trail along some edges is one along more edges.
pub widen :
    {near far : Edge → String} {es ds : List Edge} {s : String}
    → ((e : Edge) → Memᴰ e es → Memᴰ e ds)
    → {t : String} → Trail near far es s t
    → Trail near far ds s t
widen into (first e m from to) = first e (into e m) from to
widen into (onward e t m from to) = onward e (widen into t) (into e m) from to

-- A trail walked in the other direction.
prepend :
    {near far : Edge → String} {edges : List Edge} {s : String} (e : Edge)
    → Memᴰ e edges
    → near e ≡ s
    → {t : String} → Trail near far edges (far e) t
    → Trail near far edges s t
prepend e m at (first d n from to) = onward d (first e m at refl) n from to
prepend e m at (onward d t n from to) = onward d (prepend e m at t) n from to

pub reverse-Trail :
    {near far : Edge → String} {edges : List Edge} {s : String} {t : String}
    → Trail near far edges s t
    → Trail far near edges t s
reverse-Trail (first e m from to) = first e m to from
reverse-Trail {near} {far} {edges} {s} (onward e t m from to) =
    prepend e m to (subst (λ w. Trail far near edges w s) (sym from) (reverse-Trail t))

rounds :
    (document : PipelineDocument) (g : GraphIndex)
    → IsIndexOf document g
    → length document.edges < suc (length g.document.edges)
rounds document g indexed =
    omega (arith, ap (λ (d : PipelineDocument). length d.edges) indexed.same)

-- `descendants` ends, and returns exactly the ids to which one or more edges lead from the node.
pub descendants_exact :
    (document : PipelineDocument) (node_id : String)
    → (r : List String) × (descendants (index_of document) node_id ≡ done r)
      × ((v : String) → (contains r v ≡ true) ↔ Leads document node_id v)
unfolding descendants
descendants_exact document node_id =
    let indexed = index_of-IsIndexOf document in
    let g = index_of document in
    walk_exact source_of target_of document.edges (edges_from g) indexed.from node_id
      (suc (length g.document.edges)) (rounds document g indexed)

-- `ancestors` ends, and returns exactly the ids from which one or more edges lead to the node.
pub ancestors_exact :
    (document : PipelineDocument) (node_id : String)
    → (r : List String) × (ancestors (index_of document) node_id ≡ done r)
      × ((u : String) → (contains r u ≡ true) ↔ Leads document u node_id)
unfolding ancestors
ancestors_exact document node_id =
    let indexed = index_of-IsIndexOf document in
    let g = index_of document in
    let (r, ends, exact) =
      walk_exact target_of source_of document.edges (edges_into g) indexed.into node_id
        (suc (length g.document.edges)) (rounds document g indexed) in
    (r, ends, λ u. (λ m. reverse-Trail ((exact u).0 m), λ t. (exact u).1 (reverse-Trail t)))
