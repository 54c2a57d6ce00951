-- ===== src/Graph/Order.antt =====
-- `GraphIndex.topological_order` of python/sdpstudio_core/graph.py: Kahn's algorithm on a queue.
pub mod Relax
pub mod Drain
pub mod Start
pub mod Rank
pub mod Missing
pub mod Checks
use sdp_studio.Prelude.{
  ℕ, zero, suc, String, Bool, true, false, List, [], ◌∷◌, ◌++◌, length, if◌then◌else◌, Option, none,
  some, ◌&&◌,
}
use sdp_studio.Prelude.Dict.{Dict, lookup, insert, get_or, has, keys}
use sdp_studio.Prelude.Int.{ℤ, pos, increment, decrement, is_zero}
use sdp_studio.Prelude.Sort.{sort_by, sort}
use sdp_studio.Models.{Node, Edge}
use sdp_studio.Graph.Index.{GraphIndex, edges_from}

-- A Python function that may meet a missing key. The model's loops count their rounds.
pub data Outcome {ℓ} (A : Type ℓ) : Type ℓ where
  done : A → Outcome A
  key_error : String → Outcome A
  out_of_fuel : Outcome A

-- An exception ends the function.
infixl 1 ◌>>=◌
abbrev pub ◌>>=◌ {ℓ κ} : {A : Type ℓ} {B : Type κ} → Outcome A → (A → Outcome B) → Outcome B
done a >>= f = f a
key_error k >>= f = key_error k
out_of_fuel >>= f = out_of_fuel

-- `{node_id: 0 for node_id in self.nodes}`
pub zeros : Dict Node → Dict ℤ
zeros [] = []
zeros ((k, n) ∷ d) = (k, pos 0) ∷ zeros d

-- The first loop: one more for the target of each edge between nodes of the table. Such a target is
-- a key, so the default of `get_or` is never seen.
pub count_in : GraphIndex → List Edge → Dict ℤ → Dict ℤ
count_in g [] indegree = indegree
count_in g (edge ∷ edges) indegree = count_in g edges (
    if has g.nodes edge.from_.node && has g.nodes edge.to.node
    then insert edge.to.node (increment (get_or edge.to.node (pos 0) indegree)) indegree
    else indegree)

-- `[node_id for node_id, n in indegree.items() if n == 0]`
pub ready : Dict ℤ → List String
ready [] = []
ready ((k, n) ∷ indegree) = let rest = ready indegree in if is_zero n then k ∷ rest else rest

-- The inner loop: `indegree[edge.to.node] -= 1` raises `KeyError` on a key that is not there.
pub relax : List Edge → Dict ℤ → List String → Outcome (Dict ℤ × List String)
relax [] indegree queue = done (indegree, queue)
relax (edge ∷ edges) indegree queue = elim (lookup edge.to.node indegree) [
  | none ↦ key_error edge.to.node
  | some n ↦
      relax edges (insert edge.to.node (decrement n) indegree)
        (if is_zero (decrement n) then queue ++ edge.to.node ∷ [] else queue)
]

-- The `while queue` loop. Each round takes one id off the queue and puts it into the order.
pub drain : ℕ → GraphIndex → Dict ℤ → List String → List String → Outcome (List String)
drain zero g indegree [] order = done order
drain zero g indegree (_ ∷ _) order = out_of_fuel
drain (suc fuel) g indegree [] order = done order
drain (suc fuel) g indegree (node_id ∷ queue) order =
    elim (relax (sort_by (λ e. e.id) (edges_from g node_id)) indegree queue) [
      | done (indegree', queue') ↦ drain fuel g indegree' queue' (order ++ node_id ∷ [])
      | key_error k ↦ key_error k
      | out_of_fuel ↦ out_of_fuel
    ]

-- As many rounds as there are nodes are enough: `topological_order_exact`.
unfoldable pub topological_order : GraphIndex → Outcome (List String)
unfolding zeros count_in ready relax drain
topological_order g =
    let indegree = count_in g g.document.edges (zeros g.nodes) in
    drain (length (keys g.nodes)) g indegree (sort (ready indegree)) []
