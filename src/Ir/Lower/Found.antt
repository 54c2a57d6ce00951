-- ===== src/Ir/Lower/Found.antt =====
-- The nodes under the ids of a list, and the one node that has an id.
use sdp_studio.Prelude.{
  String, true, List, [], ◌∷◌, map, Option, none, some, ◌⊎◌, ◌≡◌, ◌≢◌, refl, ap, sym, ◌∙◌, inl, inr,
  Bool-cases, Option-cases, Memᴰ, any_of_mem, map-mem, count-pos, contains, arith, ◌==◌, eq_iff,
  eq_refl, subst,
}
use sdp_studio.Prelude.Dict.{Dict, lookup}
use sdp_studio.Models.{Node, PipelineDocument, node_ids}
use sdp_studio.Models.Ids.{Distinct}
use sdp_studio.Graph.Index.{GraphIndex, IsIndexOf}
use sdp_studio.Ir.Lower.Nodes.{push, nodes_at}

mem_of_push :
    (n : Node) (o : Option Node) (ns : List Node) → Memᴰ n (push o ns) → (o ≡ some n) ⊎ Memᴰ n ns
mem_of_push n none ns m = inr m
mem_of_push n (some w) ns (Memᴰ.head e) = inl (ap some (sym e))
mem_of_push n (some w) ns (Memᴰ.tail m) = inr m

push-mem : (n : Node) (o : Option Node) (ns : List Node) → Memᴰ n ns → Memᴰ n (push o ns)
push-mem n none ns m = m
push-mem n (some w) ns m = Memᴰ.tail m

pub mem_of_nodes_at :
    (nodes : Dict Node) (n : Node) (order : List String)
    → Memᴰ n (nodes_at nodes order)
    → (v : String) × (contains order v ≡ true) × (lookup v nodes ≡ some n)
unfolding nodes_at
mem_of_nodes_at nodes n [] m = elim m [ ]
mem_of_nodes_at nodes n (v ∷ order) m = elim (mem_of_push n (lookup v nodes) _ m) [
  | inl found ↦ (v, ground (arith, eq_refl v), found)
  | inr deep ↦
      let (w, listed, found) = mem_of_nodes_at nodes n order deep in (w, ground arith, found)
]

pub nodes_at-mem :
    (nodes : Dict Node) (n : Node) (v : String) (order : List String)
    → contains order v ≡ true
    → lookup v nodes ≡ some n
    → Memᴰ n (nodes_at nodes order)
unfolding nodes_at
nodes_at-mem nodes n v [] m found = cc
nodes_at-mem nodes n v (w ∷ order) m found = elim (Bool-cases (w == v)) [
  | inl here ↦
      let q = ap (λ u. lookup u nodes) ((eq_iff w v).0 here) ∙ found in
      subst (λ o. Memᴰ n (push o (nodes_at nodes order))) (sym q) (Memᴰ.head refl)
  | inr off ↦
      push-mem n (lookup w nodes) (nodes_at nodes order)
        (nodes_at-mem nodes n v order (ground arith) found)
]

pub map-nodes_at :
    (nodes : Dict Node) (order : List String)
    → ((v : String) → contains order v ≡ true → (n : Node) × (lookup v nodes ≡ some n) × (n.id ≡ v))
    → map (λ n. n.id) (nodes_at nodes order) ≡ order
unfolding nodes_at
map-nodes_at nodes [] known = refl
map-nodes_at nodes (v ∷ order) known =
    let (n, found, own) = known v (ground (arith, eq_refl v)) in
    ap (λ o. map (λ (w : Node). w.id) (push o (nodes_at nodes order))) found
    ∙ ap (λ u. u ∷ map (λ (w : Node). w.id) (nodes_at nodes order)) own
    ∙ ap (λ l. v ∷ l) (map-nodes_at nodes order (λ w m. known w (ground arith)))

repeated :
    (a c : Node) (ns : List Node) → Distinct (map (λ n. n.id) (c ∷ ns)) → Memᴰ a ns → a.id ≢ c.id
repeated a c ns d m e = ground (
  arith,
  d c.id,
  eq_refl c.id,
  count-pos (λ v. v == c.id) a.id (map (λ n. n.id) ns) (map-mem (λ n. n.id) a ns m)
      ((eq_iff a.id c.id).1 e),
)

-- Two nodes of a document with distinct ids that have the same id are one.
pub same_node :
    (a b : Node) (ns : List Node)
    → Distinct (map (λ n. n.id) ns)
    → Memᴰ a ns
    → Memᴰ b ns
    → a.id ≡ b.id
    → a ≡ b
same_node a b [] d m n e = elim m [ ]
same_node a b (c ∷ ns) d (Memᴰ.head p) (Memᴰ.head q) e = p ∙ sym q
same_node a b (c ∷ ns) d (Memᴰ.head p) (Memᴰ.tail n) e =
    absurd (repeated b c ns d n (sym e ∙ ap (λ (w : Node). w.id) p))
same_node a b (c ∷ ns) d (Memᴰ.tail m) (Memᴰ.head q) e =
    absurd (repeated a c ns d m (e ∙ ap (λ (w : Node). w.id) q))
same_node a b (c ∷ ns) d (Memᴰ.tail m) (Memᴰ.tail n) e =
    same_node a b ns (λ v. ground (arith, d v)) m n e

-- In a document with distinct ids the table holds each node under its id.
pub lookup-node :
    (document : PipelineDocument) (g : GraphIndex) (node : Node)
    → IsIndexOf document g
    → Distinct (node_ids document)
    → Memᴰ node document.nodes
    → lookup node.id g.nodes ≡ some node
lookup-node document g node indexed d m = elim (Option-cases (lookup node.id g.nodes)) [
  | inl missing ↦ absurd (
      ground (
        arith,
        indexed.nodes node.id,
        any_of_mem (λ v. v == node.id) node.id (node_ids document) (map-mem (λ n. n.id) node _ m)
            (eq_refl node.id),
      ))
  | inr (other, found) ↦
      let (n, own) = indexed.own node.id other found in
      found ∙ ap some (same_node other node document.nodes d n m own)
]
