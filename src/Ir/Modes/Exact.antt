-- ===== src/Ir/Modes/Exact.antt =====
-- A node runs as a stream exactly if a stream reaches it.
use sdp_studio.Prelude.{
  ◌≢◌, String, Bool, true, false, List, [], ◌∷◌, ◌++◌, none, some, ◌≡◌, refl, sym, ap, ◌∙◌, ◌↔◌,
  inl, inr, Bool-cases, Option-cases, Memᴰ, any, any_of_mem, mem_of_any, keep_of_mem, mem_of_keep,
  is_some, contains, contains-eq-occ, occ, count-append, subst, if◌then◌else◌, arith, ◌==◌, eq_iff,
  eq_refl,
}
use mathlib.Core.List.{append-nil, append_assoc}
use sdp_studio.Prelude.Dict.{Dict, lookup, insert, lookup-insert}
use sdp_studio.Prelude.Multiset.{
  contains-of_position, position, position-append_right, contains-append,
}
use sdp_studio.Models.{Node, Edge, PipelineDocument, node_ids}
use sdp_studio.Graph.Index.{GraphIndex, IsIndexOf, edges_into}
use sdp_studio.Graph.Order.Rank.{IsOrder}
use sdp_studio.Graph.Order.{done}
use sdp_studio.Ir.Modes.{
  is_source, is_stream, is_streaming, mode_if, mode_of, assign_modes, Streams, origin, passed,
}
use sdp_studio.Ir.{Mode}

is_streaming-mode_if : (b : Bool) → is_streaming (some (mode_if b)) ≡ b
is_streaming-mode_if true = refl
is_streaming-mode_if false = refl

module _ (document : PipelineDocument) (g : GraphIndex) (indexed : IsIndexOf document g) where
  abbrev Streaming : String → Type 0
  Streaming v = Streams document g.nodes v

  known-Streams : (v : String) → Streaming v → contains (node_ids document) v ≡ true
  known-Streams v (origin node e _ _) = ground (arith, indexed.nodes v)
  known-Streams v (passed node _ e _ _ _ _) = ground (arith, indexed.nodes v)

  -- The modes of the ids read so far.
  pub record Assigned (pre : List String) (modes : Dict Mode) : Type 0 where
    pub given : (v : String) → contains pre v ≡ is_some (lookup v modes)
    pub right :
        (v : String) → contains pre v ≡ true → (is_streaming (lookup v modes) ≡ true) ↔ Streaming v

  module _ (order pre rest : List String) (current : String) (modes : Dict Mode) (node : Node)
      (split : order ≡ pre ++ current ∷ rest) (ordered : IsOrder document order)
      (found : lookup current g.nodes ≡ some node) (h : Assigned pre modes) where
    fresh : contains pre current ≡ false
    fresh = ground (
      arith,
      ordered.distinct current,
      ap (occ current) split,
      count-append (λ x. x == current) pre (current ∷ rest),
      contains-eq-occ pre current,
      eq_refl current,
    )

    earlier :
        (e : Edge)
        → Memᴰ e document.edges
        → e.to.node ≡ current
        → contains (node_ids document) e.from_.node ≡ true
        → contains pre e.from_.node ≡ true
    earlier e m to known =
        let before =
          (ordered.forward e m known (
            ap (contains order) to
            ∙ ap (λ l. contains l current) split
            ∙ ground
                (arith, contains-append pre (current ∷ rest) current, eq_refl current))).earlier in
        contains-of_position e.from_.node pre (current ∷ rest) (
          omega (
            arith,
            before,
            ap (position e.from_.node) split,
            ap (position e.to.node) split,
            ap (λ v. position v (pre ++ current ∷ rest)) to,
            position-append_right current pre rest fresh,
          ))

    enters :
        (e : Edge) → Memᴰ e (edges_into g current) → Memᴰ e document.edges × (e.to.node ≡ current)
    enters e m =
        let (inside, to) =
          mem_of_keep (λ d. d.to.node == current) e document.edges
            (subst (λ l. Memᴰ e l) (indexed.into current) m) in
        (inside, (eq_iff e.to.node current).0 to)

    abbrev streams_in : Edge → Bool
    streams_in e = is_streaming (lookup e.from_.node modes)

    met :
        (e : Edge)
        → is_streaming (lookup e.from_.node modes) ≡ true
        → contains pre e.from_.node ≡ true
    met e on = ground (arith, h.given e.from_.node)

    same : (other : Node) → lookup current g.nodes ≡ some other → other ≡ node
    same other e = cc

    streamed : Streaming current → is_source node ≡ true → is_stream node ≡ true
    streamed (origin other e _ on) outer = sym (ap is_stream (same other e)) ∙ on
    streamed (passed other _ e inner _ _ _) outer = ground (arith, ap is_source (same other e))

    comes_in :
        (s : Streaming current)
        → is_source node ≡ false
        → any streams_in (edges_into g current) ≡ true
    comes_in (origin other e outer _) inner = ground (arith, found, ap is_source (same other e))
    comes_in (passed other e at _ m to s) inner =
        any_of_mem streams_in e (edges_into g current)
          (subst (λ l. Memᴰ e l) (sym (indexed.into current))
            (keep_of_mem (λ d. d.to.node == current) e document.edges m
              ((eq_iff e.to.node current).1 to)))
          ((h.right e.from_.node (earlier e m to (known-Streams e.from_.node s))).1 s)

    passed_on :
        is_source node ≡ false → (any streams_in (edges_into g current) ≡ true) ↔ Streaming current
    passed_on inner = (
      λ some_in.
          let (e, m, on) = mem_of_any streams_in (edges_into g current) some_in in
          let (inside, to) = enters e m in
          passed node e found inner inside to ((h.right e.from_.node (met e on)).0 on),
      λ s. comes_in s inner,
    )

    starts : is_source node ≡ true → (is_stream node ≡ true) ↔ Streaming current
    starts outer = (λ on. origin node found outer on, λ s. streamed s outer)

    mode_of-cases :
        is_streaming (some (mode_of g modes current node))
        ≡ (if is_source node then is_stream node else any streams_in (edges_into g current))
    unfolding mode_of
    mode_of-cases = ground (
      arith,
      is_streaming-mode_if (is_stream node),
      is_streaming-mode_if (any streams_in (edges_into g current)),
    )

    mode-exact : (is_streaming (some (mode_of g modes current node)) ≡ true) ↔ Streaming current
    mode-exact = elim (Bool-cases (is_source node)) [
      | inl outer ↦ rw (mode_of-cases, outer) (starts outer)
      | inr inner ↦ rw (mode_of-cases, inner) (passed_on inner)
    ]

    abbrev after : Dict Mode
    after = insert current (mode_of g modes current node) modes

    Assigned-step : Assigned (pre ++ current ∷ []) after
    Assigned-step = record {
      given = λ v. ground (
        arith,
        contains-append pre (current ∷ []) v,
        lookup-insert current v (mode_of g modes current node) modes,
        h.given v,
      );
      right = λ v m. elim (Bool-cases (current == v)) [
        | inl here ↦
            let q = (eq_iff current v).0 here in
            subst (λ w. (is_streaming (lookup w after) ≡ true) ↔ Streaming w) q
              (rw
                (
                  lookup-insert current current (mode_of g modes current node) modes,
                  eq_refl current,
                )
                mode-exact)
        | inr off ↦
            rw (lookup-insert current v (mode_of g modes current node) modes, off)
              (h.right v (ground (arith, contains-append pre (current ∷ []) v)))
      ];
    }

  no_gap :
      (order pre rest : List String) (current : String)
      → order ≡ pre ++ current ∷ rest
      → IsOrder document order
      → lookup current g.nodes ≢ none
  no_gap order pre rest current split ordered missing = ground (
    arith,
    ordered.known current,
    indexed.nodes current,
    ap (λ l. contains l current) split,
    contains-append pre (current ∷ rest) current,
    eq_refl current,
  )

  assign_modes-lem :
      (order pre rest : List String) (modes : Dict Mode)
      → order ≡ pre ++ rest
      → IsOrder document order
      → Assigned pre modes
      → (r : Dict Mode) × (assign_modes g rest modes ≡ done r) × Assigned order r
  unfolding assign_modes
  assign_modes-lem order pre [] modes split ordered h =
      (modes, refl, subst (λ l. Assigned l modes) (sym (append-nil pre) ∙ sym split) h)
  assign_modes-lem order pre (current ∷ rest) modes split ordered h =
      elim (Option-cases (lookup current g.nodes)) [
        | inl missing ↦ absurd (no_gap order pre rest current split ordered missing)
        | inr (node, found) ↦
            let (r, ends, right) =
              assign_modes-lem order (pre ++ current ∷ []) rest
                (after order pre rest current modes node split ordered found h)
                (split ∙ sym (append_assoc pre (current ∷ []) rest)) ordered
                (Assigned-step order pre rest current modes node split ordered found h) in
            (r, rw (found, assign_modes) ends, right)
      ]

  -- Along an order of the document every node is given its mode.
  pub assign_modes-Assigned :
      (order : List String)
      → IsOrder document order
      → (r : Dict Mode) × (assign_modes g order [] ≡ done r) × Assigned order r
  unfolding lookup
  assign_modes-Assigned order ordered =
      assign_modes-lem order [] order [] refl ordered
        (record { given = λ v. refl; right = λ v m. cc })
