-- ===== src/Reconcile/Region.antt =====
-- The regions of python/sdpstudio_codegen/reconcile.py.
use sdp_studio.Prelude.{ℕ, String, Option}

pub data Ownership : Type 0 where
  visual custom : Ownership

pub record OwnershipRegion : Type 0 where
  pub start_line : ℕ
  pub end_line : ℕ
  pub ownership : Ownership
  pub node_id : Option String
