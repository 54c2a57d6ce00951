-- ===== src/Ir/Modes.antt =====
-- The execution modes of `lower_pipeline` (python/sdpstudio_core/ir.py), assigned along the
-- topological order.
pub mod Exact
use text.Mathlib.Text.{starts_with}
use sdp_studio.Prelude.{
  ◌<◌, String, Bool, true, false, List, [], ◌∷◌, ◌++◌, Option, none, some, ◌≡◌, refl, sym, ap, ◌∙◌,
  ◌↔◌, inl, inr, Bool-cases, Option-cases, Memᴰ, any, any_of_mem, mem_of_any, keep_of_mem,
  mem_of_keep, is_some, length, contains, contains-eq-occ, occ, count-append, subst, ◌||◌,
  if◌then◌else◌, arith, ◌==◌, eq_iff, eq_refl,
}
use mathlib.Core.List.{append-nil, append_assoc}
use sdp_studio.Prelude.Dict.{Dict, lookup, insert, lookup-insert}
use sdp_studio.Json.{flag}
use sdp_studio.Prelude.Multiset.{
  contains-of_position, position, position-append_right, contains-append,
}
use sdp_studio.Models.{Node, Edge, PipelineDocument, node_ids}
use sdp_studio.Graph.Index.{GraphIndex, IsIndexOf, edges_into}
use sdp_studio.Graph.Order.Rank.{IsOrder}
use sdp_studio.Graph.Order.{Outcome, done, key_error}
use sdp_studio.Ir.{Mode, batch, streaming}

-- `node.type.startswith("source.")`
abbrev pub is_source : Node → Bool
is_source node = starts_with node.type "source."

-- A source that is read as a stream.
unfoldable pub is_stream : Node → Bool
is_stream node = node.type == "source.kafka" || flag "streaming" node.config

-- `mode == "streaming"`, where `None` is another mode
abbrev pub is_streaming : Option Mode → Bool
is_streaming none = false
is_streaming (some batch) = false
is_streaming (some streaming) = true

abbrev pub mode_if : Bool → Mode
mode_if true = streaming
mode_if false = batch

-- The mode of one node from the modes assigned so far.
unfoldable pub mode_of : GraphIndex → Dict Mode → String → Node → Mode
mode_of g modes node_id node =
    if is_source node
    then mode_if (is_stream node)
    else mode_if (any (λ e. is_streaming (lookup e.from_.node modes)) (edges_into g node_id))

-- The first loop.
unfoldable pub assign_modes : GraphIndex → List String → Dict Mode → Outcome (Dict Mode)
unfolding mode_of
assign_modes g [] modes = done modes
assign_modes g (node_id ∷ order) modes = elim (lookup node_id g.nodes) [
  | none ↦ key_error node_id
  | some node ↦ assign_modes g order (insert node_id (mode_of g modes node_id node) modes)
]

-- A node is reached by a stream: it is a source that is read as one, or no source, and an edge leads
-- to it from such a node.
pub data Streams (document : PipelineDocument) (nodes : Dict Node) : String → Type 0 where
  origin :
      {v : String} (node : Node)
      → lookup v nodes ≡ some node
      → is_source node ≡ true
      → is_stream node ≡ true
      → Streams document nodes v
  passed :
      {v : String} (node : Node) (e : Edge)
      → lookup v nodes ≡ some node
      → is_source node ≡ false
      → Memᴰ e document.edges
      → e.to.node ≡ v
      → Streams document nodes e.from_.node
      → Streams document nodes v
