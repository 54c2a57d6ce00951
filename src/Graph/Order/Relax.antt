-- ===== src/Graph/Order/Relax.antt =====
-- The inner loop of the topological order. `base v` counts the edges into `v` that no round of this
-- loop takes away, so the counter of `v` stands at `base v` when the loop ends.
use sdp_studio.Prelude.{
  ◌⊎◌, inl, inr, Bool-cases, subst, ℕ, suc, ◌+◌, String, ◌≡◌, refl, ap, Bool, true, false, ◌&&◌,
  List, [], ◌∷◌, ◌++◌, Memᴰ, none, some, count, occ, count-append, eqb, if◌then◌else◌, arith, ◌==◌,
  eq_iff, eq_refl,
}
use sdp_studio.Prelude.Dict.{Dict, lookup, insert, lookup-insert}
use sdp_studio.Prelude.Int.{ℤ, pos, is_zero, is_zero-pos}
use sdp_studio.Models.{Edge}
use sdp_studio.Graph.Order.{done, key_error, relax}

-- The edges of a list that end at `v`.
abbrev pub hits : String → List Edge → ℕ
hits v es = count (λ e. e.to.node == v) es

module _ (inside : String → Bool) (base : String → ℕ) (order : List String) where
  pub record IsCounted (es : List Edge) (indegree : Dict ℤ) (queue : List String) : Type 0 where
    pub counter :
        (v : String)
        → lookup v indegree ≡ (if inside v then some (pos (base v + hits v es)) else none)
    pub once :
        (v : String)
        → occ v (order ++ queue) ≡ (if inside v && eqb (base v + hits v es) 0 then 1 else 0)

  abbrev next_queue : String → ℤ → List String → List String
  next_queue t n queue = if is_zero n then queue ++ t ∷ [] else queue

  occ-next_queue :
      (t v : String) (n : ℤ) (queue : List String)
      → occ v (order ++ next_queue t n queue)
        ≡ occ v (order ++ queue) + (if is_zero n && t == v then 1 else 0)
  occ-next_queue t v n queue = ground (
    arith,
    count-append (λ x. x == v) order queue,
    count-append (λ x. x == v) order (queue ++ t ∷ []),
    count-append (λ x. x == v) queue (t ∷ []),
  )

  -- The new counter, at its own key and elsewhere.
  counter_at :
      (e : Edge) (es : List Edge) (indegree : Dict ℤ) (v : String)
      → inside e.to.node ≡ true
      → e.to.node ≡ v
      → lookup v (insert e.to.node (pos (base e.to.node + hits e.to.node es)) indegree)
        ≡ (if inside v then some (pos (base v + hits v es)) else none)
  counter_at e es indegree v known q =
      subst
        (λ w.
          lookup w (insert e.to.node (pos (base e.to.node + hits e.to.node es)) indegree)
          ≡ (if inside w then some (pos (base w + hits w es)) else none))
        q (rw (lookup-insert, eq_refl, known) refl)

  once_at :
      (e : Edge) (es : List Edge) (queue : List String) (v : String)
      → inside e.to.node ≡ true
      → e.to.node ≡ v
      → occ v (order ++ queue) ≡ (if inside v && eqb (base v + hits v (e ∷ es)) 0 then 1 else 0)
      → occ v (order ++ next_queue e.to.node (pos (base e.to.node + hits e.to.node es)) queue)
        ≡ (if inside v && eqb (base v + hits v es) 0 then 1 else 0)
  once_at e es queue v known q h =
      let n = base e.to.node + hits e.to.node es in
      let m = base v + hits v es in
      let same : n ≡ m = ap (λ w. base w + hits w es) q in
      ground (
        arith,
        (eq_iff e.to.node v).1 q,
        ap inside q,
        is_zero-pos n,
        occ-next_queue e.to.node v (pos n) queue,
      )

  IsCounted-step :
      (e : Edge) (es : List Edge) (indegree : Dict ℤ) (queue : List String)
      → inside e.to.node ≡ true
      → IsCounted (e ∷ es) indegree queue
      → IsCounted es
          (insert e.to.node (pos (base e.to.node + hits e.to.node es)) indegree)
          (next_queue e.to.node (pos (base e.to.node + hits e.to.node es)) queue)
  IsCounted-step e es indegree queue known h = record {
    counter = λ v. elim (Bool-cases (e.to.node == v)) [
      | inl here ↦ counter_at e es indegree v known ((eq_iff e.to.node v).0 here)
      | inr off ↦ ground (
        arith,
        lookup-insert e.to.node v (pos (base e.to.node + hits e.to.node es)) indegree,
        h.counter v,
      )
    ];
    once = λ v. elim (Bool-cases (e.to.node == v)) [
      | inl here ↦ once_at e es queue v known ((eq_iff e.to.node v).0 here) (h.once v)
      | inr off ↦ ground (
        arith,
        occ-next_queue e.to.node v (pos (base e.to.node + hits e.to.node es)) queue,
        h.once v,
      )
    ];
  }

  pub relax-IsCounted :
      (es : List Edge) (indegree : Dict ℤ) (queue : List String)
      → ((e : Edge) → Memᴰ e es → inside e.to.node ≡ true)
      → IsCounted es indegree queue
      → (r : Dict ℤ × List String) × (relax es indegree queue ≡ done r) × IsCounted [] r.0 r.1
  unfolding relax
  relax-IsCounted [] indegree queue known h = ((indegree, queue), refl, h)
  relax-IsCounted (e ∷ es) indegree queue known h =
      let m = base e.to.node + hits e.to.node es in
      let n : base e.to.node + hits e.to.node (e ∷ es) ≡ suc m =
        ground (arith, eq_refl e.to.node) in
      let here : inside e.to.node ≡ true = known e (Memᴰ.head refl) in
      let found : lookup e.to.node indegree ≡ some (pos (suc m)) = rw (h.counter, here, n) refl in
      let (r, ends, counted) =
        relax-IsCounted es (insert e.to.node (pos m) indegree) (next_queue e.to.node (pos m) queue)
          (λ d in_es. known d (Memᴰ.tail in_es)) (IsCounted-step e es indegree queue here h) in
      (r, rw (found, relax) ends, counted)

  member_cases :
      (e : Edge) (es : List Edge)
      → inside e.to.node ≡ true
      → ((d : Edge) → Memᴰ d es → inside d.to.node ≡ true)
      → (d : Edge) → Memᴰ d (e ∷ es)
      → inside d.to.node ≡ true
  member_cases e es here met d (Memᴰ.head q) = rw q here
  member_cases e es here met d (Memᴰ.tail m) = met d m

  -- Without that knowledge the loop ends well, and has then met known targets only, or it stops at
  -- a target that the table does not have.
  pub relax_cases :
      (es : List Edge) (indegree : Dict ℤ) (queue : List String)
      → IsCounted es indegree queue
      → ((r : Dict ℤ × List String) × (relax es indegree queue ≡ done r)
          × IsCounted [] r.0 r.1
          × ((e : Edge) → Memᴰ e es → inside e.to.node ≡ true))
        ⊎ ((k : String) × (relax es indegree queue ≡ key_error k) × (inside k ≡ false))
  unfolding relax
  relax_cases [] indegree queue h = inl ((indegree, queue), refl, h, λ e m. elim m [ ])
  relax_cases (e ∷ es) indegree queue h =
      let t = e.to.node in
      let m = base t + hits t es in
      let n : base t + hits t (e ∷ es) ≡ suc m = ground (arith, eq_refl t) in
      elim (Bool-cases (inside t)) [
        | inr outside ↦ inr (
          t,
          rw
              (
                let missing : lookup t indegree ≡ none = rw (h.counter, outside) refl in missing,
                relax,
              )
              refl,
          outside,
        )
        | inl here ↦
            let found : lookup t indegree ≡ some (pos (suc m)) = rw (h.counter, here, n) refl in
            elim (relax_cases es (insert t (pos m) indegree) (next_queue t (pos m) queue)
              (IsCounted-step e es indegree queue here h)) [
                | inl (r, ends, counted, met) ↦ inl (
                  r,
                  rw (found, relax) ends,
                  counted,
                  λ d in_es. member_cases e es here met d in_es,
                )
                | inr (k, stops, outside) ↦ inr (k, rw (found, relax) stops, outside)
              ]
      ]
