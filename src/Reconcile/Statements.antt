-- ===== src/Reconcile/Statements.antt =====
-- What `reconcile_python` (python/sdpstudio_codegen/reconcile.py) reads from the body of an output
-- function.
use sdp_studio.Prelude.{
  String, Bool, false, List, [], ◌∷◌, ◌++◌, Option, none, some, ◌==◌, if◌then◌else◌,
}
use sdp_studio.Prelude.Dict.{lookup}
use sdp_studio.Json.{Fields}
use sdp_studio.Models.{Node}
use sdp_studio.Reconcile.Region.{Ownership, visual, custom, OwnershipRegion}
use sdp_studio.Reconcile.Syntax.{
  Form, Expr, name, attribute, call, exprs, expression, assign, returns, Statement, FunctionDef,
}
use sdp_studio.Reconcile.Edits.{Edit, supported, bad_filter, ignored, raises, update, edit_of}
use sdp_studio.Reconcile.Copies.{problem, node_for, State, write_config}
use sdp_studio.Reconcile.Decorators.{read_decorators}

abbrev region : Statement → Ownership → Option String → OwnershipRegion
region s ownership node_id = record {
  start_line = s.lineno;
  end_line = s.end_lineno;
  ownership = ownership;
  node_id = node_id;
}

-- An edit that stays with the code.
unfoldable pub refuse : Statement → Option String → State → State
refuse s node_id state = record state {
  problems = state.problems ++ problem "SDPS-RECON-003" s.lineno ∷ [];
  regions = state.regions ++ region s custom node_id ∷ [];
}

unfoldable pub apply_edit : Statement → String → Edit → State → Option State
unfolding refuse write_config
apply_edit s id (supported changes) state = some (record state {
  nodes = write_config id (update changes) state.nodes;
  regions = state.regions ++ region s visual (some id) ∷ [];
})
apply_edit s id bad_filter state = some (refuse s (some id) state)
apply_edit s id ignored state = some state
apply_edit s id raises state = none

abbrev pub config_of : Option Node → Fields
config_of none = Fields.end
config_of (some n) = n.config

-- An assignment to the variable of a node.
unfoldable pub read_value : Statement → String → Expr → State → Option State
unfolding apply_edit edit_of
read_value s id (call (attribute receiver attr) args _) state =
    apply_edit s id (edit_of attr receiver (exprs args) (config_of (lookup id state.nodes))) state
read_value s id _ state = some (refuse s (some id) state)

-- `_sdpstudio_capture_plan(...)`
unfoldable pub is_capture : Expr → Bool
is_capture (call (name f) _ _) = f == "_sdpstudio_capture_plan"
is_capture _ = false

unfoldable pub read_assignment : List Node → Statement → String → Expr → State → Option State
unfolding node_for read_value
read_assignment ns s variable value state = elim (node_for variable ns) [
  | none ↦ some state
  | some id ↦ read_value s id value state
]

unfoldable pub read_form : List Node → Statement → Form → State → Option State
unfolding is_capture read_assignment refuse
read_form ns s (expression e) state =
    if is_capture e then some state else some (refuse s none state)
read_form ns s (assign (name variable ∷ []) value) state = read_assignment ns s variable value state
read_form ns s returns state = some state
read_form ns s _ state = some (refuse s none state)

-- One round of the loop over the body of a function.
unfoldable pub read_statement : List Node → Statement → State → Option State
unfolding read_form
read_statement ns s state = read_form ns s s.form state

infixl 1 ◌>>=◌
abbrev pub ◌>>=◌ {ℓ κ} : {A : Type ℓ} {B : Type κ} → Option A → (A → Option B) → Option B
none >>= f = none
some a >>= f = f a

unfoldable pub read_body : List Node → List Statement → State → Option State
unfolding read_statement
read_body ns [] state = some state
read_body ns (s ∷ ss) state = read_statement ns s state >>= read_body ns ss

unfoldable pub read_functions : List Node → List FunctionDef → State → Option State
unfolding read_decorators read_body
read_functions ns [] state = some state
read_functions ns (f ∷ fs) state =
    read_body ns f.body (read_decorators f.name f.decorator_list state) >>= read_functions ns fs
