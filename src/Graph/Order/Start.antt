-- ===== src/Graph/Order/Start.antt =====
-- The counters and the queue with which the topological order starts.
use sdp_studio.Prelude.{
  inl, inr, Bool-cases, subst, ℕ, ◌+◌, ◌≤◌, String, ◌≡◌, refl, ap, Bool, true, false, ◌&&◌, List,
  [], ◌∷◌, none, some, count, occ, if◌then◌else◌, arith, ◌==◌, eq_iff, eq_refl,
}
use sdp_studio.Prelude.Dict.{
  Dict, lookup, insert, get_or, has, keys, IsUnique, lookup-insert, insert-IsUnique,
}
use sdp_studio.Prelude.Int.{ℤ, pos, increment, is_zero, is_zero-pos}
use sdp_studio.Prelude.Sort.{sort, count-sort_by}
use sdp_studio.Models.{Node, Edge, PipelineDocument}
use sdp_studio.Graph.Index.{GraphIndex, IsIndexOf}
use sdp_studio.Graph.Order.{zeros, count_in, ready}
use sdp_studio.Graph.Order.Drain.{blocks, blockers, Inv}

lookup-zeros :
    (d : Dict Node) (v : String) → lookup v (zeros d) ≡ (if has d v then some (pos 0) else none)
unfolding zeros lookup
lookup-zeros [] v = refl
lookup-zeros ((k, n) ∷ d) v = ground (arith, lookup-zeros d v)

keys-zeros : (d : Dict Node) → keys (zeros d) ≡ keys d
unfolding zeros
keys-zeros [] = refl
keys-zeros ((k, n) ∷ d) = ap (λ l. k ∷ l) (keys-zeros d)

zeros-IsUnique : (d : Dict Node) → IsUnique d → IsUnique (zeros d)
zeros-IsUnique d h = record {
  once = λ k. ground (arith, ap (occ k) (keys-zeros d), lookup-zeros d k, h.once k);
}

abbrev zero_at : String → Dict ℤ → Bool
zero_at v d = elim (lookup v d) [ none ↦ false | some n ↦ is_zero n ]

occ-ready-le : (d : Dict ℤ) (v : String) → occ v (ready d) ≤ occ v (keys d)
unfolding ready
occ-ready-le [] v = omega arith
occ-ready-le ((k, n) ∷ d) v = ground (arith, occ-ready-le d v)

occ-ready :
    (d : Dict ℤ) (v : String)
    → occ v (keys d) ≤ 1
    → occ v (ready d) ≡ (if zero_at v d then 1 else 0)
unfolding ready lookup
occ-ready [] v h = refl
occ-ready ((k, n) ∷ d) v h = ground (arith, occ-ready-le d v, occ-ready d v)

if-IsUnique : (b : Bool) (d d' : Dict ℤ) → IsUnique d → IsUnique d' → IsUnique (if b then d else d')
if-IsUnique true d d' h h' = h
if-IsUnique false d d' h h' = h'

-- One round of the counting loop.
abbrev bump : GraphIndex → Edge → Dict ℤ → Dict ℤ
bump g e d =
    if has g.nodes e.from_.node && has g.nodes e.to.node
    then insert e.to.node (increment (get_or e.to.node (pos 0) d)) d
    else d

module _ (document : PipelineDocument) (g : GraphIndex) (indexed : IsIndexOf document g) where
  abbrev blocks_at_start : String → Edge → Bool
  blocks_at_start = blocks document g indexed []

  count_in-IsUnique : (es : List Edge) (d : Dict ℤ) → IsUnique d → IsUnique (count_in g es d)
  unfolding count_in
  count_in-IsUnique [] d h = h
  count_in-IsUnique (e ∷ es) d h = count_in-IsUnique es (bump g e d) (
      if-IsUnique (has g.nodes e.from_.node && has g.nodes e.to.node)
        (insert e.to.node (increment (get_or e.to.node (pos 0) d)) d) d
        (insert-IsUnique e.to.node (increment (get_or e.to.node (pos 0) d)) d h) h)

  abbrev one : Edge → String → ℕ
  one e v = if blocks_at_start v e then 1 else 0

  -- The dictionary holds the numbers of `base` at the ids of the table, and nothing else.
  abbrev Holds : (String → ℕ) → Dict ℤ → String → Type 0
  Holds base d v = lookup v d ≡ (if has g.nodes v then some (pos (base v)) else none)

  bump-Holds :
      (e : Edge) (d : Dict ℤ) (base : String → ℕ)
      → ((v : String) → Holds base d v)
      → (v : String) → Holds (λ w. base w + one e w) (bump g e d) v
  bump-Holds e d base h v = elim (Bool-cases (e.to.node == v)) [
    | inl here ↦ subst (Holds (λ w. base w + one e w) (bump g e d)) ((eq_iff e.to.node v).0 here) (
        ground (
          arith,
          eq_refl e.to.node,
          h e.to.node,
          lookup-insert e.to.node e.to.node (increment (get_or e.to.node (pos 0) d)) d,
        ))
    | inr off ↦
        ground (arith, h v, lookup-insert e.to.node v (increment (get_or e.to.node (pos 0) d)) d)
  ]

  lookup-count_in :
      (es : List Edge) (d : Dict ℤ) (base : String → ℕ)
      → ((v : String) → lookup v d ≡ (if has g.nodes v then some (pos (base v)) else none))
      → (v : String)
      → lookup v (count_in g es d)
        ≡ (if has g.nodes v then some (pos (base v + count (blocks_at_start v) es)) else none)
  unfolding count_in
  lookup-count_in [] d base h v = ground (arith, h v)
  lookup-count_in (e ∷ es) d base h v =
      ground
        (arith, lookup-count_in es (bump g e d) (λ w. base w + one e w) (bump-Holds e d base h) v)

  abbrev pub start : Dict ℤ
  start = count_in g document.edges (zeros g.nodes)

  lookup-start :
      (v : String)
      → lookup v start
        ≡ (if has g.nodes v then some (pos (blockers document g indexed [] v)) else none)
  lookup-start v =
      ground
        (arith, lookup-count_in document.edges (zeros g.nodes) (λ w. 0) (lookup-zeros g.nodes) v)

  start-IsUnique : IsUnique start
  start-IsUnique =
      count_in-IsUnique document.edges (zeros g.nodes) (zeros-IsUnique g.nodes indexed.unique)

  -- The counters count the edges into each id, and the queue holds the ids that no edge enters.
  pub Inv-start : Inv document g indexed start (sort (ready start)) []
  Inv-start = record {
    counted = record {
      counter = λ v. ground (arith, lookup-start v);
      once = λ v. ground (
        arith,
        lookup-start v,
        count-sort_by (λ x. x) (λ x. x == v) (ready start),
        occ-ready start v,
        start-IsUnique.once v,
        is_zero-pos (blockers document g indexed [] v),
      );
    };
    forward = record { at = λ e m from to. cc };
  }
