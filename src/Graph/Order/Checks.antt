-- ===== src/Graph/Order/Checks.antt =====
-- The hypotheses on a document as tests that run.
use sdp_studio.Prelude.{
  ◌≡◌, ℕ, String, Bool, true, not, ◌&&◌, ◌||◌, all, true_of_all, contains, ltb, arith,
}
use sdp_studio.Models.{Edge, PipelineDocument, node_ids}
use sdp_studio.Graph.Order.Drain.{TargetsKnown}
use sdp_studio.Graph.Order.Rank.{IsRanking}

abbrev pub target_known : PipelineDocument → Edge → Bool
target_known document e =
    not (contains (node_ids document) e.from_.node) || contains (node_ids document) e.to.node

pub TargetsKnown-of_check :
    (document : PipelineDocument)
    → all (target_known document) document.edges ≡ true
    → TargetsKnown document
TargetsKnown-of_check document h e m from =
    ground (arith, true_of_all (target_known document) e document.edges h m)

abbrev pub goes_up : PipelineDocument → (String → ℕ) → Edge → Bool
goes_up document rank e =
    not (contains (node_ids document) e.from_.node && contains (node_ids document) e.to.node)
    || ltb (rank e.from_.node) (rank e.to.node)

pub IsRanking-of_check :
    (document : PipelineDocument) (rank : String → ℕ)
    → all (goes_up document rank) document.edges ≡ true
    → IsRanking document rank
IsRanking-of_check document rank h = record {
  grows = λ e m from to. ground (arith, true_of_all (goes_up document rank) e document.edges h m);
}
