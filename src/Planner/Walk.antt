-- ===== src/Planner/Walk.antt =====
-- The walk above an output meets exactly the nodes that lead to it.
use sdp_studio.Prelude.{
  ℕ, zero, suc, ◌+◌, ◌≤◌, String, Bool, true, false, List, [], ◌∷◌, ◌||◌, not, ◌⊎◌, inl, inr, ◌↔◌,
  ◌≡◌, refl, sym, ap, ◌∙◌, subst, Bool-cases, Option-cases, Option, none, some, Memᴰ, length,
  length-keep, count, count-split, count-le-length, any, any_of_mem, mem_of_any, keep_of_mem,
  mem_of_keep, contains, contains_same, arith, ◌==◌, eq_iff, eq_refl,
}
use sdp_studio.Prelude.Dict.{lookup}
use sdp_studio.Prelude.Multiset.{contains-append}
use sdp_studio.Models.{Node, Edge, PipelineDocument, node_ids}
use sdp_studio.Graph.Index.{GraphIndex, IsIndexOf, edges_into}
use sdp_studio.Graph.Order.{done}
use sdp_studio.Graph.Walk.{source_of, target_of}
use sdp_studio.Graph.Walk.Reach.{Trail, first, onward}
use sdp_studio.Planner.{extend_stack, note_type, scan_above, unsupported_above, sql_unsupported}

contains-extend_stack :
    (es : List Edge) (stack : List String) (v : String)
    → contains (extend_stack es stack) v ≡ any (λ e. e.from_.node == v) es || contains stack v
unfolding extend_stack
contains-extend_stack [] stack v = refl
contains-extend_stack (e ∷ es) stack v =
    ground (arith, contains-extend_stack es (e.from_.node ∷ stack) v)

length-extend_stack :
    (es : List Edge) (stack : List String)
    → length (extend_stack es stack) ≡ length es + length stack
unfolding extend_stack
length-extend_stack [] stack = omega arith
length-extend_stack (e ∷ es) stack = omega (arith, length-extend_stack es (e.from_.node ∷ stack))

abbrev is_reason : Option String → String → Bool
is_reason none why = false
is_reason (some reason) why = reason == why

contains-note_type :
    (o : Option String) (us : List String) (why : String)
    → contains (note_type o us) why ≡ contains us why || is_reason o why
unfolding note_type
contains-note_type none us why = ground arith
contains-note_type (some reason) us why = ground (arith, contains-append us (reason ∷ []) why)

reason_is : (o : Option String) (why : String) → is_reason o why ≡ true → o ≡ some why
reason_is none why h = cc
reason_is (some reason) why h = ap some ((eq_iff reason why).0 h)

note_type-adds :
    (o : Option String) (us : List String) (why : String)
    → o ≡ some why
    → contains (note_type o us) why ≡ true
note_type-adds none us why e = cc
note_type-adds (some reason) us why e =
    ground (arith, contains-note_type (some reason) us why, eq_iff reason why)

-- Every edge of the document starts at one of its nodes.
abbrev pub SourcesKnown : PipelineDocument → Type 0
SourcesKnown document =
    (e : Edge) → Memᴰ e document.edges → contains (node_ids document) e.from_.node ≡ true

module _ (document : PipelineDocument) (g : GraphIndex) (indexed : IsIndexOf document g)
    (sources : SourcesKnown document) (start : String) where
  -- Upwards from the start along the edges.
  abbrev Up : String → Type 0
  Up u = Trail target_of source_of document.edges start u

  -- The type of a node above the start has a reason.
  abbrev pub Blocked : String → Type 0
  Blocked why =
      (u : String) × (n : Node) × Up u
      × (lookup u g.nodes ≡ some n)
      × (lookup n.type sql_unsupported ≡ some why)

  record Inv (seen stack us : List String) : Type 0 where
    sound : (u : String) → contains seen u ≡ true → Up u
    queued : (u : String) → contains stack u ≡ true → Up u
    closed :
        (e : Edge)
        → Memᴰ e document.edges
        → (start ≡ e.to.node) ⊎ (contains seen e.to.node ≡ true)
        → (contains stack e.from_.node ≡ true) ⊎ (contains seen e.from_.node ≡ true)
    noted :
        (u why : String) (n : Node)
        → contains seen u ≡ true
        → lookup u g.nodes ≡ some n
        → lookup n.type sql_unsupported ≡ some why
        → contains us why ≡ true
    reasons : (why : String) → contains us why ≡ true → Blocked why

  into_mem :
      (v : String) (e : Edge) → Memᴰ e (edges_into g v) → Memᴰ e document.edges × (e.to.node ≡ v)
  into_mem v e m =
      let (inside, to) =
        mem_of_keep (λ d. d.to.node == v) e document.edges
          (subst (λ l. Memᴰ e l) (indexed.into v) m) in
      (inside, (eq_iff e.to.node v).0 to)

  into-mem :
      (v : String) (e : Edge)
      → Memᴰ e document.edges
      → e.to.node ≡ v
      → any (λ d. d.from_.node == e.from_.node) (edges_into g v) ≡ true
  into-mem v e m to =
      any_of_mem (λ d. d.from_.node == e.from_.node) e (edges_into g v)
        (subst (λ l. Memᴰ e l) (sym (indexed.into v))
          (keep_of_mem (λ d. d.to.node == v) e document.edges m ((eq_iff e.to.node v).1 to)))
        (eq_refl e.from_.node)

  Inv-start : Inv [] (extend_stack (edges_into g start) []) []
  Inv-start = record {
    sound = λ u h. cc;
    queued = λ u h.
        let (e, m, at) =
          mem_of_any (λ e. e.from_.node == u) (edges_into g start)
            (ground (arith, contains-extend_stack (edges_into g start) [] u)) in
        let (inside, to) = into_mem start e m in first e inside to ((eq_iff e.from_.node u).0 at);
    closed = λ e m from.
        ground
          (arith, into-mem start e m, contains-extend_stack (edges_into g start) [] e.from_.node);
    noted = λ u why n h. cc;
    reasons = λ why h. cc;
  }

  -- An id that was seen before is passed over.
  Inv-skip :
      (seen stack us : List String) (current : String)
      → contains seen current ≡ true
      → Inv seen (current ∷ stack) us
      → Inv seen stack us
  Inv-skip seen stack us current old h = record {
    sound = h.sound;
    queued = λ u m. h.queued u (ground arith);
    closed = λ e m from. elim (h.closed e m from) [
      | inr met ↦ inr met
      | inl waits ↦ elim (Bool-cases (current == e.from_.node)) [
        | inl here ↦ inr (sym (contains_same seen current e.from_.node here) ∙ old)
        | inr off ↦ inl (ground arith)
      ]
    ];
    noted = h.noted;
    reasons = h.reasons;
  }

  Inv-round :
      (seen stack us : List String) (current : String) (n : Node)
      → lookup current g.nodes ≡ some n
      → Inv seen (current ∷ stack) us
      → Inv
          (current ∷ seen)
          (extend_stack (edges_into g current) stack)
          (note_type (lookup n.type sql_unsupported) us)
  Inv-round seen stack us current n found h =
      let up : Up current = h.queued current (ground (arith, eq_refl current)) in
      record {
        sound = λ u m. elim (Bool-cases (current == u)) [
          | inl here ↦ subst Up ((eq_iff current u).0 here) up
          | inr off ↦ h.sound u (ground arith)
        ];
        queued = λ u m. elim (Bool-cases (contains stack u)) [
          | inl old ↦ h.queued u (ground arith)
          | inr new ↦
              let (e, at, from) =
                mem_of_any (λ e. e.from_.node == u) (edges_into g current)
                  (ground (arith, contains-extend_stack (edges_into g current) stack u)) in
              let (inside, to) = into_mem current e at in
              onward e up inside to ((eq_iff e.from_.node u).0 from)
        ];
        closed = λ e m from. ground (
          arith,
          h.closed e m,
          into-mem current e m,
          eq_iff current e.to.node,
          contains-extend_stack (edges_into g current) stack e.from_.node,
        );
        noted = λ u why w m at reason. elim (Bool-cases (current == u)) [
          | inl here ↦
              let q = ap (λ v. lookup v g.nodes) ((eq_iff current u).0 here) in
              let one : n ≡ w = cc in
              note_type-adds (lookup n.type sql_unsupported) us why
                (ap (λ (x : Node). lookup x.type sql_unsupported) one ∙ reason)
          | inr off ↦ ground (
            arith,
            h.noted u why w (ground arith) at reason,
            contains-note_type (lookup n.type sql_unsupported) us why,
          )
        ];
        reasons = λ why m. elim (Bool-cases (contains us why)) [
          | inl old ↦ h.reasons why old
          | inr new ↦ (
            current,
            n,
            up,
            found,
            reason_is (lookup n.type sql_unsupported) why
                (ground (arith, contains-note_type (lookup n.type sql_unsupported) us why)),
          )
        ];
      }

  left : List String → ℕ
  left seen = count (λ e. not (contains seen e.to.node)) document.edges

  left-cons :
      (seen : List String) (current : String)
      → contains seen current ≡ false
      → left seen ≡ left (current ∷ seen) + length (edges_into g current)
  unfolding left
  left-cons seen current new =
      count-split (λ e. not (contains seen e.to.node))
        (λ e. not (contains (current ∷ seen) e.to.node)) (λ e. e.to.node == current) document.edges
        (λ e. ground (
          arith,
          eq_iff current e.to.node,
          eq_iff e.to.node current,
          contains_same seen e.to.node current,
        ))
      ∙ ap (λ k. left (current ∷ seen) + k)
          (sym (
            ap length (indexed.into current)
            ∙ length-keep (λ e. e.to.node == current) document.edges))

  known-Up : (u : String) → Up u → contains (node_ids document) u ≡ true
  known-Up u (first e m _ at) = subst (λ v. contains (node_ids document) v ≡ true) at (sources e m)
  known-Up u (onward e _ m _ at) =
      subst (λ v. contains (node_ids document) v ≡ true) at (sources e m)

  scan_above-Inv :
      (fuel : ℕ) (seen stack us : List String)
      → length stack + left seen ≤ fuel
      → Inv seen stack us
      → (r : List String) × (last : List String) × (scan_above fuel g seen stack us ≡ done r)
        × Inv last [] r
  unfolding scan_above
  scan_above-Inv fuel seen [] us e h = (us, seen, refl, h)
  scan_above-Inv zero seen (current ∷ stack) us e h = absurd (omega arith)
  scan_above-Inv (suc fuel) seen (current ∷ stack) us e h =
      elim (Bool-cases (contains seen current)) [
        | inl old ↦
            let (r, last, ends, right) =
              scan_above-Inv fuel seen stack us (omega arith)
                (Inv-skip seen stack us current old h) in
            (r, last, rw (old, scan_above) ends, right)
        | inr new ↦ elim (Option-cases (lookup current g.nodes)) [
          | inl missing ↦ absurd (
              ground (
                arith,
                indexed.nodes current,
                known-Up current (h.queued current (ground (arith, eq_refl current))),
              ))
          | inr (n, found) ↦
              let (r, last, ends, right) =
                scan_above-Inv fuel (current ∷ seen) (extend_stack (edges_into g current) stack)
                  (note_type (lookup n.type sql_unsupported) us)
                  (omega (
                    arith,
                    left-cons seen current new,
                    length-extend_stack (edges_into g current) stack,
                  ))
                  (Inv-round seen stack us current n found h) in
              (r, last, rw (new, found, scan_above) ends, right)
        ]
      ]

  met-Up : (last us : List String) → Inv last [] us → {u : String} → Up u → contains last u ≡ true
  met-Up last us h (first e m from at) =
      subst (λ v. contains last v ≡ true) at (ground (arith, h.closed e m (inl (sym from))))
  met-Up last us h (onward e t m from at) =
      let below : contains last e.to.node ≡ true = ap (contains last) from ∙ met-Up last us h t in
      subst (λ v. contains last v ≡ true) at (ground (arith, h.closed e m (inr below)))

  -- The reasons found are those of the types above the start.
  pub unsupported_above-exact :
      (us : List String) × (unsupported_above g start ≡ done us)
      × ((why : String) → (contains us why ≡ true) ↔ Blocked why)
  unfolding unsupported_above left
  unsupported_above-exact =
      let size = ap (λ (d : PipelineDocument). length d.edges) indexed.same in
      let (us, last, ends, h) =
        scan_above-Inv (length g.document.edges + length g.document.edges) []
          (extend_stack (edges_into g start) []) []
          (omega (
            arith,
            size,
            length-extend_stack (edges_into g start) [],
            ap length (indexed.into start),
            length-keep (λ e. e.to.node == start) document.edges,
            count-le-length (λ e. e.to.node == start) document.edges,
            count-le-length (λ e. not (contains [] e.to.node)) document.edges,
          ))
          Inv-start in
      (
        us,
        ends,
        λ why. (
          h.reasons why,
          λ (u, n, up, found, reason). h.noted u why n (met-Up last us h up) found reason,
        ),
      )
