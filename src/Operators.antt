-- ===== src/Operators.antt =====
-- python/sdpstudio_core/operators.py: the operator catalogue, the registry and the check of a node's
-- required configuration. What plugins contribute is a parameter: a list of further operators.
pub mod Builtin
use sdp_studio.Prelude.{
  ℕ, String, Bool, true, false, List, [], ◌∷◌, ◌++◌, map, Option, none, some, not, ◌&&◌, ◌||◌,
  contains, keep, if◌then◌else◌, ◌==◌,
}
use sdp_studio.Prelude.Dict.{Dict, insert, has}
use sdp_studio.Json.{Json, Fields, get}
use sdp_studio.Models.{Problem, Severity}

pub record PortMetadata : Type 0 where
  pub optional : Bool
  pub cardinality : String

pub record Operator : Type 0 where
  pub id : String
  pub inputs : List String
  pub outputs : List String
  pub modes : List String
  pub required : List String
  pub input_ports : Dict PortMetadata

abbrev pub operator :
    String → List String → List String → List String → List String → Dict PortMetadata → Operator
operator id inputs outputs modes required input_ports = record {
  id = id;
  inputs = inputs;
  outputs = outputs;
  modes = modes;
  required = required;
  input_ports = input_ports;
}

-- `item.get("modes", ["batch", "streaming"])` and the two narrower lists that entries give
abbrev pub both_modes : List String
both_modes = "batch" ∷ "streaming" ∷ []

abbrev pub batch_only : List String
batch_only = "batch" ∷ []

abbrev pub streaming_only : List String
streaming_only = "streaming" ∷ []

-- `operator_catalog`: of two entries with one id the later is kept.
unfoldable pub catalog : List Operator → Dict Operator → Dict Operator
catalog [] d = d
catalog (op ∷ ops) d = catalog ops (insert op.id op d)

-- `OperatorRegistry.register`, whose `ValueError` on an id that is there the caller passes over.
unfoldable pub register : Operator → Dict Operator → Dict Operator
register op d = if has d op.id then d else insert op.id op d

-- `builtin_registry`: of two entries with one id the earlier is kept.
unfoldable pub register_all : List Operator → Dict Operator → Dict Operator
unfolding register
register_all [] d = d
register_all (op ∷ ops) d = register_all ops (register op d)

-- `name not in config or config[name] in (None, "")`
unfoldable pub is_missing : Fields → String → Bool
unfolding get
is_missing config name = elim (get name config) [
  | none ↦ true
  | some Json.null ↦ true
  | some (Json.str s) ↦ s == ""
  | some (Json.bool b) ↦ false
  | some (Json.num m n) ↦ false
  | some (Json.list vs) ↦ false
  | some (Json.dict d) ↦ false
]

-- `OperatorDefinition.validate_config`
unfoldable pub validate_config : Operator → Fields → String → List Problem
unfolding is_missing
validate_config op config node_id =
    map
      (λ name. record {
        code = "SDPS-OPERATOR-001";
        severity = Severity.error;
        node_id = some node_id;
      })
      (keep (is_missing config) op.required)
