-- ===== src/Graph.antt =====
-- python/sdpstudio_core/graph.py: the index of a pipeline document and what is computed from it.
pub mod Index
pub mod Order
pub mod Walk
pub mod Secrets
pub mod Validate
