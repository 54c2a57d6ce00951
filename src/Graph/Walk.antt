-- ===== src/Graph/Walk.antt =====
-- `ancestors`, `descendants` and `trace_to_sources` of `GraphIndex`
-- (python/sdpstudio_core/graph.py). A Python set is a list to which only new members are added, and
-- the top of a Python stack is the head of its list.
pub mod Visit
pub mod Reach
pub mod Trace
use sdp_studio.Prelude.{
  ℕ, zero, suc, String, List, [], ◌∷◌, length, contains, keep, ◌==◌, ◌||◌, if◌then◌else◌,
}
use sdp_studio.Models.{Edge}
use sdp_studio.Graph.Index.{GraphIndex, edges_into, edges_from}
use sdp_studio.Graph.Order.{Outcome, done, key_error, out_of_fuel, topological_order}

abbrev pub source_of : Edge → String
source_of e = e.from_.node

abbrev pub target_of : Edge → String
target_of e = e.to.node

-- The `for` loop over the edges at one id: the far end of each goes to `seen` and onto the stack,
-- unless it was seen before.
pub visit : (Edge → String) → List Edge → List String → List String → List String × List String
visit far [] seen stack = (seen, stack)
visit far (edge ∷ edges) seen stack =
    visit far edges (if contains seen (far edge) then seen else far edge ∷ seen)
      (if contains seen (far edge) then stack else far edge ∷ stack)

-- The `while stack` loop, over the edges that `table` gives at each id.
pub walk :
    ℕ → (String → List Edge) → (Edge → String) → List String → List String → Outcome (List String)
walk zero table far seen [] = done seen
walk zero table far seen (_ ∷ _) = out_of_fuel
walk (suc fuel) table far seen [] = done seen
walk (suc fuel) table far seen (current ∷ stack) =
    let r = visit far (table current) seen stack in walk fuel table far r.0 r.1

-- One round for the start and one for each edge are enough: `ancestors_exact`, `descendants_exact`.
unfoldable pub ancestors : GraphIndex → String → Outcome (List String)
unfolding walk visit
ancestors g node_id =
    walk (suc (length g.document.edges)) (edges_into g) source_of [] (node_id ∷ [])

unfoldable pub descendants : GraphIndex → String → Outcome (List String)
unfolding walk visit
descendants g node_id =
    walk (suc (length g.document.edges)) (edges_from g) target_of [] (node_id ∷ [])

both :
    Outcome (List String)
    → Outcome (List String)
    → (List String → List String → List String)
    → Outcome (List String)
both (done a) (done b) f = done (f a b)
both (done a) (key_error k) f = key_error k
both (done a) out_of_fuel f = out_of_fuel
both (key_error k) _ f = key_error k
both out_of_fuel _ f = out_of_fuel

-- The part of the topological order that leads to a node, the node included.
unfoldable pub trace_to_sources : GraphIndex → String → Outcome (List String)
unfolding ancestors topological_order both
trace_to_sources g node_id =
    both (ancestors g node_id) (topological_order g)
      (λ above order. keep (λ n. contains above n || n == node_id) order)
