-- ===== src/Graph/Validate/Ports.antt =====
-- The check of the input ports reports no error exactly if each port is sound.
use sdp_studio.Prelude.{
  inl, inr, Option-cases, ◌↔◌, String, ◌≡◌, ap, ◌∙◌, false, Memᴰ, some, length-keep, count,
  count-keep, ◌==◌, arith,
}
use sdp_studio.Prelude.Dict.{Dict, lookup}
use sdp_studio.Models.{Node, PipelineDocument}
use sdp_studio.Models.Problems.{has_errors}
use sdp_studio.Operators.{Operator}
use sdp_studio.Graph.Index.{GraphIndex, IsIndexOf, edges_into}
use sdp_studio.Graph.Validate.{connections, port_problems, input_problems, advice}
use sdp_studio.Graph.Validate.Describe.{edges_at, PortSound}
use sdp_studio.Graph.Validate.Clean.{gather_clean}

pub connections_lem :
    (document : PipelineDocument) (g : GraphIndex) (node : Node) (port : String)
    → IsIndexOf document g
    → connections g node port ≡ edges_at document node.id port
connections_lem document g node port indexed =
    length-keep (λ e. e.to.port == port) (edges_into g node.id)
    ∙ ap (count (λ e. e.to.port == port)) (indexed.into node.id)
    ∙ count-keep (λ e. e.to.port == port) (λ e. e.to.node == node.id) document.edges

module _ (document : PipelineDocument) (g : GraphIndex) (indexed : IsIndexOf document g) where
  pub port_clean :
      (op : Operator) (node : Node) (port : String)
      → (has_errors (port_problems g op node port) ≡ false) ↔ PortSound document op node port
  unfolding port_problems
  port_clean op node port = (
    λ h. ground (arith, connections_lem document g node port indexed),
    λ s. ground (arith, connections_lem document g node port indexed),
  )

  pub inputs_clean :
      (ops : Dict Operator) (node : Node)
      → (has_errors (input_problems ops g node) ≡ false) ↔ (
          (op : Operator)
          → lookup node.type ops ≡ some op
          → (port : String) → Memᴰ port op.inputs
          → PortSound document op node port)
  inputs_clean ops node = (
    λ h op found port m. (port_clean op node port).0 (
        (gather_clean (port_problems g op node) op.inputs).0
          (unfold input_problems in rw (found, input_problems) at h) port m),
    λ s. elim (Option-cases (lookup node.type ops)) [
      | inl missing ↦ unfold input_problems in rw (missing, input_problems)
      | inr (op, found) ↦
          unfold input_problems in
          rw (found, input_problems)
            ((gather_clean (port_problems g op node) op.inputs).1
              (λ port m. (port_clean op node port).1 (s op found port m)))
    ],
  )

pub advice_clean : (node : Node) → has_errors (advice node) ≡ false
unfolding advice
advice_clean node = ground arith
