-- ===== src/Ir.antt =====
-- python/sdpstudio_core/ir.py: the intermediate representation of a pipeline. Source locations are
-- not part of the model: a node of the model carries no `model_extra` from which they are read. Of
-- the name of a sink the model keeps the value that `str` prints. Of the
-- name of a sink the model keeps the value that `str` prints.
pub mod Freeze
pub mod Refs
pub mod Modes
pub mod Lower
pub mod View
use sdp_studio.Prelude.{String, List, Option}
use sdp_studio.Json.{Json}
use sdp_studio.Models.{Problem}
use sdp_studio.Ir.Freeze.{FrozenFields}

pub data Mode : Type 0 where
  batch streaming : Mode

pub data Language : Type 0 where
  python sql literal : Language

pub data NodeKind : Type 0 where
  source transform sink : NodeKind

pub record IrExpression : Type 0 where
  pub text : String
  pub origin_node_id : Option String
  pub language : Language

-- `IRSource` and `IRTransform` have the same fields.
pub record IrPart : Type 0 where
  pub id : String
  pub operator : String
  pub config : FrozenFields
  pub mode : Mode
  pub expression : Option IrExpression
  pub origin_node_id : Option String

pub record IrSink : Type 0 where
  pub id : String
  pub operator : String
  pub name : Json
  pub config : FrozenFields
  pub mode : Mode
  pub expression : Option IrExpression
  pub origin_node_id : Option String

pub record IrFlow : Type 0 where
  pub id : String
  pub from_node : String
  pub from_port : String
  pub to_node : String
  pub to_port : String

pub record IrNode : Type 0 where
  pub id : String
  pub operator : String
  pub config : FrozenFields
  pub mode : Mode
  pub kind : NodeKind
  pub expression : Option IrExpression

pub record IrDataset : Type 0 where
  pub name : Json
  pub kind : String
  pub mode : Mode
  pub origin_node_id : String
  pub expression : Option IrExpression

pub record IrPipeline : Type 0 where
  pub name : String
  pub nodes : List IrNode
  pub flows : List IrFlow
  pub datasets : List IrDataset
  pub sources : List IrPart
  pub transforms : List IrPart
  pub sinks : List IrSink
  pub parameters : List String
  pub secrets : List String
  pub origin_pipeline_id : Option String

pub record IrLoweringResult : Type 0 where
  pub pipeline : IrPipeline
  pub problems : List Problem
