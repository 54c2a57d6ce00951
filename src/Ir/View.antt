-- ===== src/Ir/View.antt =====
-- `IRPipeline.graph_view` of python/sdpstudio_core/ir.py: the graph that backends walk, made of the
-- representation alone. An `IRGraphNode` has no operator version, which nothing that reads a view
-- looks at: 0 stands in its place.
use sdp_studio.Prelude.{
  String, ◌≡◌, refl, ap, sym, ◌==◌, if◌then◌else◌, List, [], ◌∷◌, map, Option, none, some, Memᴰ,
  subst,
}
use sdp_studio.Prelude.Sort.{sort_by, mem_of_sort_by, sort_by-mem}
use sdp_studio.Models.{Node, Edge, PipelineDocument, node_ids}
use sdp_studio.Ir.{IrNode, IrFlow, IrPipeline}
use sdp_studio.Ir.Freeze.{thaw_fields}
use sdp_studio.Ir.Lower.{Parts, flow_of, pipeline_of}

unfoldable pub view_node : IrNode → Node
view_node node = record {
  id = node.id;
  type = node.operator;
  operator_version = 0;
  config = thaw_fields node.config;
}

unfoldable pub view_edge : IrFlow → Edge
view_edge flow = record {
  id = flow.id;
  from_ = record { node = flow.from_node; port = flow.from_port };
  to = record { node = flow.to_node; port = flow.to_port };
}

-- `self.origin_pipeline_id or "ir-pipeline"`
abbrev view_id : Option String → String
view_id none = "ir-pipeline"
view_id (some id) = if id == "" then "ir-pipeline" else id

unfoldable pub graph_view : IrPipeline → PipelineDocument
unfolding view_node view_edge
graph_view pipeline = record {
  schema_version = 0;
  pipeline_id = view_id pipeline.origin_pipeline_id;
  name = pipeline.name;
  revision = 0;
  nodes = map view_node pipeline.nodes;
  edges = map view_edge pipeline.flows;
}

edges-kept : (es : List Edge) → map view_edge (map flow_of es) ≡ es
unfolding view_edge
edges-kept [] = refl
edges-kept (e ∷ es) = ap (λ l. e ∷ l) (edges-kept es)

-- The edges of the document, in the order of their ids.
pub edges-graph_view :
    (document : PipelineDocument) (parts : Parts)
    → (graph_view (pipeline_of document parts)).edges ≡ sort_by (λ e. e.id) document.edges
unfolding graph_view pipeline_of
edges-graph_view document parts = edges-kept (sort_by (λ e. e.id) document.edges)

ids-view_node :
    (nodes : List IrNode) → map (λ n. n.id) (map view_node nodes) ≡ map (λ n. n.id) nodes
unfolding view_node
ids-view_node [] = refl
ids-view_node (n ∷ nodes) = ap (λ l. n.id ∷ l) (ids-view_node nodes)

pub node_ids-graph_view :
    (pipeline : IrPipeline) → node_ids (graph_view pipeline) ≡ map (λ n. n.id) pipeline.nodes
unfolding graph_view
node_ids-graph_view pipeline = ids-view_node pipeline.nodes

pub edge_of_view :
    (document : PipelineDocument) (parts : Parts) (e : Edge)
    → Memᴰ e (graph_view (pipeline_of document parts)).edges
    → Memᴰ e document.edges
edge_of_view document parts e m =
    mem_of_sort_by (λ e. e.id) e document.edges
      (subst (λ l. Memᴰ e l) (edges-graph_view document parts) m)

pub view-edge :
    (document : PipelineDocument) (parts : Parts) (e : Edge)
    → Memᴰ e document.edges
    → Memᴰ e (graph_view (pipeline_of document parts)).edges
view-edge document parts e m =
    subst (λ l. Memᴰ e l) (sym (edges-graph_view document parts))
      (sort_by-mem (λ e. e.id) e document.edges m)
