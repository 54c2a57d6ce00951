-- ===== src/Graph/Walk/Visit.antt =====
-- The inner loop of the graph walks: what it adds, and that it costs no more rounds than are left.
use sdp_studio.Prelude.{
  inl, inr, Bool-cases, ℕ, suc, ◌+◌, ◌≤◌, String, ◌≡◌, refl, Bool, true, false, ◌&&◌, ◌||◌, not,
  List, [], ◌∷◌, Memᴰ, length, count, count-split, any, contains, contains_same, count-pos, arith,
  ◌==◌, eq_refl,
}
use sdp_studio.Models.{Edge}
use sdp_studio.Graph.Walk.{visit}

module _ (far : Edge → String) (e : Edge) (es : List Edge) (seen stack : List String) where
  visit_old : contains seen (far e) ≡ true → visit far (e ∷ es) seen stack ≡ visit far es seen stack
  unfolding visit
  visit_old h = rw (h, visit)

  visit_new :
      contains seen (far e) ≡ false
      → visit far (e ∷ es) seen stack ≡ visit far es (far e ∷ seen) (far e ∷ stack)
  unfolding visit
  visit_new h = rw (h, visit)

module _ (far : Edge → String) where
  -- `p` is the far end of one of the edges.
  abbrev pub ends_at : String → List Edge → Bool
  ends_at p es = any (λ e. far e == p) es

  pub contains-visit_seen :
      (es : List Edge) (seen stack : List String) (p : String)
      → contains (visit far es seen stack).0 p ≡ contains seen p || ends_at p es
  contains-visit_seen [] seen stack p = unfold visit in ground arith
  contains-visit_seen (e ∷ es) seen stack p = elim (Bool-cases (contains seen (far e))) [
    | inl old ↦
        rw (visit_old far e es seen stack old)
          (ground (arith, contains-visit_seen es seen stack p, contains_same seen (far e) p))
    | inr new ↦
        rw (visit_new far e es seen stack new)
          (ground (arith, contains-visit_seen es (far e ∷ seen) (far e ∷ stack) p))
  ]

  pub contains-visit_stack :
      (es : List Edge) (seen stack : List String) (p : String)
      → contains (visit far es seen stack).1 p
        ≡ contains stack p || (ends_at p es && not (contains seen p))
  contains-visit_stack [] seen stack p = unfold visit in ground arith
  contains-visit_stack (e ∷ es) seen stack p = elim (Bool-cases (contains seen (far e))) [
    | inl old ↦
        rw (visit_old far e es seen stack old)
          (ground (arith, contains-visit_stack es seen stack p, contains_same seen (far e) p))
    | inr new ↦ rw (visit_new far e es seen stack new) (
        ground (
          arith,
          contains-visit_stack es (far e ∷ seen) (far e ∷ stack) p,
          contains_same seen (far e) p,
        ))
  ]

module _ (far : Edge → String) (edges : List Edge) where
  -- The edges whose far end was not seen yet.
  abbrev pub unseen : List String → ℕ
  unseen seen = count (λ e. not (contains seen (far e))) edges

  unseen-cons :
      (e : Edge) (seen : List String)
      → Memᴰ e edges
      → contains seen (far e) ≡ false
      → suc (unseen (far e ∷ seen)) ≤ unseen seen
  unseen-cons e seen m new = omega (
    arith,
    count-split (λ d. not (contains seen (far d))) (λ d. not (contains (far e ∷ seen) (far d)))
        (λ d. far e == far d && not (contains seen (far d))) edges (λ d. ground arith),
    count-pos (λ d. far e == far d && not (contains seen (far d))) e edges m
        (ground (arith, eq_refl (far e))),
  )

  -- What is on the stack and what may still come there do not grow.
  pub visit_cost :
      (es : List Edge) (seen stack : List String)
      → ((e : Edge) → Memᴰ e es → Memᴰ e edges)
      → length (visit far es seen stack).1 + unseen (visit far es seen stack).0
        ≤ length stack + unseen seen
  visit_cost [] seen stack h = unfold visit in omega arith
  visit_cost (e ∷ es) seen stack h = elim (Bool-cases (contains seen (far e))) [
    | inl old ↦
        rw (visit_old far e es seen stack old) (visit_cost es seen stack (λ d m. h d (Memᴰ.tail m)))
    | inr new ↦ rw (visit_new far e es seen stack new) (
        omega (
          arith,
          visit_cost es (far e ∷ seen) (far e ∷ stack) (λ d m. h d (Memᴰ.tail m)),
          unseen-cons e seen (h e (Memᴰ.head refl)) new,
        ))
  ]
