-- ===== src/Reconcile/Decorators.antt =====
-- What `reconcile_python` (python/sdpstudio_codegen/reconcile.py) reads from the decorators of an
-- output function.
use sdp_studio.Prelude.{
  String, List, [], ◌∷◌, ◌++◌, contains, Option, none, some, ◌==◌, if◌then◌else◌,
}
use sdp_studio.Prelude.Dict.{Dict}
use sdp_studio.Json.{Json, Fields}
use sdp_studio.Models.{Node}
use sdp_studio.Reconcile.Syntax.{
  Expr, attribute, call, list_of, tuple_of, Keywords, no_more, keyword, exprs, Decorator,
}
use sdp_studio.Reconcile.Edits.{set_field, texts_list, text_of, text_first, all_texts}
use sdp_studio.Reconcile.Copies.{problem, find_named, State, write_if}

-- `next((kw.value for kw in decorator.keywords if kw.arg == key), None)`
unfoldable pub keyword_value : String → Keywords → Option Expr
keyword_value key no_more = none
keyword_value key (keyword none value rest) = keyword_value key rest
keyword_value key (keyword (some arg) value rest) =
    let later = keyword_value key rest in if arg == key then some value else later

-- The value of the first keyword `target` that is a text.
unfoldable pub target_text : Keywords → Option String
target_text no_more = none
target_text (keyword none value rest) = target_text rest
target_text (keyword (some arg) value rest) =
    let later = target_text rest in
    if arg == "target" then elim (text_of value) [ none ↦ later | some s ↦ some s ] else later

keep_keys : Option (List String) → Fields → Fields
keep_keys none config = config
keep_keys (some keys) config = set_field "keys" (Json.list (texts_list keys)) config

-- `keys=[...]` of a change data capture
unfoldable pub write_keys : Option Expr → Fields → Fields
unfolding keep_keys all_texts texts_list
write_keys (some (list_of es)) config = keep_keys (all_texts (exprs es)) config
write_keys (some (tuple_of es)) config = keep_keys (all_texts (exprs es)) config
write_keys _ config = config

keep_sequence : Option String → Fields → Fields
keep_sequence none config = config
keep_sequence (some s) config = set_field "sequence_by" (Json.str s) config

-- `sequence_by=F.col("...")`
unfoldable pub write_sequence : Option Expr → Fields → Fields
unfolding keep_sequence
write_sequence (some (call (attribute _ attr) args _)) config =
    if attr == "col" then keep_sequence (text_first (exprs args)) config else config
write_sequence _ config = config

abbrev pub known_decorators : List String
known_decorators =
    "materialized_view" ∷ "table" ∷ "temporary_view" ∷ "append_flow" ∷ "create_auto_cdc_flow" ∷ []

abbrev pub or_find : Option String → Option String → Option String
or_find (some id) other = some id
or_find none other = other

abbrev rename_to : Option String → Fields → Fields
rename_to none config = config
rename_to (some s) config = set_field "name" (Json.str s) config

-- The first argument as a new name of the output.
unfoldable pub rename_output : Option String → List Expr → Dict Node → Dict Node
unfolding write_if
rename_output output args nodes = write_if output (rename_to (text_first args)) nodes

-- `keys` and `sequence_by` of a change data capture
unfoldable pub capture : Option String → Keywords → Dict Node → Dict Node
unfolding write_if keyword_value write_keys write_sequence
capture output keywords nodes =
    write_if output
      (λ config.
        write_sequence (keyword_value "sequence_by" keywords)
          (write_keys (keyword_value "keys" keywords) config))
      nodes

-- A decorator of the five that are known.
unfoldable pub known_decorator : String → String → List Expr → Keywords → Dict Node → Dict Node
unfolding find_named target_text rename_output capture
known_decorator function attr args keywords nodes =
    let output = find_named (some function) nodes in
    let renamed = rename_output output args nodes in
    let owner = or_find output (find_named (target_text keywords) renamed) in
    if attr == "create_auto_cdc_flow" then capture owner keywords renamed else renamed

unfoldable pub read_decorator_form : String → Decorator → Expr → State → State
unfolding known_decorator
read_decorator_form function decorator (call (attribute _ attr) args keywords) state =
    if contains known_decorators attr
    then record state { nodes = known_decorator function attr (exprs args) keywords state.nodes }
    else record state {
      problems = state.problems ++ problem "SDPS-RECON-003" decorator.lineno ∷ [];
    }
read_decorator_form function decorator _ state = state

-- One round of the loop over the decorators.
unfoldable pub read_decorator : String → Decorator → State → State
unfolding read_decorator_form
read_decorator function decorator state =
    read_decorator_form function decorator decorator.form state

unfoldable pub read_decorators : String → List Decorator → State → State
unfolding read_decorator
read_decorators function [] state = state
read_decorators function (d ∷ ds) state =
    read_decorators function ds (read_decorator function d state)
