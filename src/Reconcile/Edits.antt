-- ===== src/Reconcile/Edits.antt =====
-- What `reconcile_python` (python/sdpstudio_codegen/reconcile.py) makes of one assignment: the fields
-- that it writes into the configuration of the node.
pub mod Refused
use sdp_studio.Prelude.{String, List, [], ◌∷◌, Option, none, some, ◌==◌, if◌then◌else◌}
use sdp_studio.Prelude.Int.{pos}
use sdp_studio.Json.{Json, Items, Fields, get, truthy}
use sdp_studio.Reconcile.Syntax.{
  text, whole, truth, Expr, constant, attribute, call, list_of, exprs,
}

-- `supported` carries the items of `node.config.update(...)`, and `raises` is the exception of
-- `dict(value)` on a value that is no mapping.
pub data Edit : Type 0 where
  supported : List (String × Json) → Edit
  bad_filter ignored raises : Edit

-- `config[k] = v`
unfoldable pub set_field : String → Json → Fields → Fields
set_field k v Fields.end = Fields.field k v Fields.end
set_field k v (Fields.field j w d) =
    if j == k then Fields.field j v d else Fields.field j w (set_field k v d)

unfoldable pub update : List (String × Json) → Fields → Fields
unfolding set_field
update [] d = d
update ((k, v) ∷ changes) d = update changes (set_field k v d)

unfoldable pub texts_list : List String → Items
texts_list [] = Items.nil
texts_list (s ∷ ss) = Items.cons (Json.str s) (texts_list ss)

-- The value of a constant that is a text.
abbrev pub text_of : Expr → Option String
text_of (constant (text s)) = some s
text_of _ = none

abbrev pub first_of : List Expr → Option Expr
first_of [] = none
first_of (e ∷ es) = some e

abbrev pub text_first : List Expr → Option String
text_first [] = none
text_first (e ∷ es) = text_of e

-- `F.expr("...")`: a call of an attribute of that name with a text as first argument
unfoldable pub text_called : String → Expr → Option String
text_called attr (call (attribute _ found) args _) =
    if found == attr then text_first (exprs args) else none
text_called attr _ = none

-- The texts, if every item is one.
unfoldable pub all_texts : List Expr → Option (List String)
all_texts [] = some []
all_texts (e ∷ es) = elim (text_of e) [
  | none ↦ none
  | some s ↦ elim (all_texts es) [ none ↦ none | some ss ↦ some (s ∷ ss) ]
]

-- `value.args[0].elts if len(value.args) == 1 and isinstance(value.args[0], ast.List) else value.args`
abbrev pub values_of : List Expr → List Expr
values_of (list_of es ∷ []) = exprs es
values_of args = args

-- A column of a projection.
unfoldable pub column_of : Expr → Option String
unfolding text_called
column_of e = elim (text_of e) [ none ↦ text_called "expr" e | some s ↦ some s ]

unfoldable pub all_columns : List Expr → Option (List String)
unfolding column_of
all_columns [] = some []
all_columns (e ∷ es) = elim (column_of e) [
  | none ↦ none
  | some s ↦ elim (all_columns es) [ none ↦ none | some ss ↦ some (s ∷ ss) ]
]

abbrev pub write_text : String → Option String → Edit
write_text key none = ignored
write_text key (some s) = supported ((key, Json.str s) ∷ [])

abbrev write_columns : Option (List String) → Edit
write_columns none = ignored
write_columns (some []) = ignored
write_columns (some (s ∷ ss)) = supported (("columns", Json.list (texts_list (s ∷ ss))) ∷ [])

edit_with_column : List Expr → Edit
edit_with_column (constant (text n) ∷ e ∷ []) = elim (text_called "expr" e) [
  | none ↦ ignored
  | some x ↦ supported (("name", Json.str n) ∷ ("expression", Json.str x) ∷ [])
]
edit_with_column _ = ignored

-- `dict(node.config.get("mapping") or {})` with one more entry. `dict` raises for what is no dict; a list
-- of pairs, which it takes as well, is left out.
rename : Option Json → String → String → Edit
rename none old new =
    supported (("mapping", Json.dict (Fields.field old (Json.str new) Fields.end)) ∷ [])
rename (some (Json.dict d)) old new =
    supported (("mapping", Json.dict (set_field old (Json.str new) d)) ∷ [])
rename (some v) old new =
    if truthy v
    then raises
    else supported (("mapping", Json.dict (Fields.field old (Json.str new) Fields.end)) ∷ [])

edit_renamed : Fields → List Expr → Edit
unfolding rename
edit_renamed config (constant (text old) ∷ constant (text new) ∷ []) =
    rename (get "mapping" config) old new
edit_renamed config _ = ignored

-- `F.col("...").cast("...")`
edit_cast : Expr → List Expr → Edit
edit_cast column args = elim (text_called "col" column) [
  | none ↦ ignored
  | some c ↦ elim (text_first args) [
    | none ↦ ignored
    | some t ↦ supported (("column", Json.str c) ∷ ("dataType", Json.str t) ∷ [])
  ]
]

edit_distinct : List Expr → Edit
edit_distinct [] = supported []
edit_distinct _ = ignored

-- A Boolean is an `int`.
edit_limit : List Expr → Edit
edit_limit (constant (whole n) ∷ []) = supported (("count", Json.num (pos n) 0) ∷ [])
edit_limit (constant (truth b) ∷ []) = supported (("count", Json.bool b) ∷ [])
edit_limit _ = ignored

edit_filter : List Expr → Edit
edit_filter (call func args keywords ∷ _) = elim (text_called "expr" (call func args keywords)) [
  | none ↦ bad_filter
  | some x ↦ supported (("expression", Json.str x) ∷ [])
]
edit_filter _ = ignored

deduplicate : Option (List String) → List Expr → Edit
deduplicate (some (time ∷ delay ∷ [])) args = elim (all_texts (values_of args)) [
  | none ↦ ignored
  | some [] ↦ ignored
  | some (s ∷ ss) ↦ supported (
      ("eventTime", Json.str time)
      ∷ ("watermark", Json.str delay)
      ∷ ("columns", Json.list (texts_list (s ∷ ss)))
      ∷ [])
]
deduplicate _ args = ignored

-- `...withWatermark("...", "...").dropDuplicates(...)`, or without a watermark a projection
edit_deduplicate : Expr → List Expr → Edit
unfolding deduplicate
edit_deduplicate (call (attribute _ attr) marks _) args =
    if attr == "withWatermark" then deduplicate (all_texts (exprs marks)) args else ignored
edit_deduplicate (call _ _ _) args = ignored
edit_deduplicate _ args = write_columns (all_columns (values_of args))

-- The chain of tests on `value.func.attr`.
unfoldable pub edit_of : String → Expr → List Expr → Fields → Edit
unfolding edit_with_column edit_renamed edit_cast edit_distinct all_texts edit_limit edit_filter
    edit_deduplicate all_columns texts_list
edit_of attr receiver args config =
    if attr == "table"
    then write_text "table" (text_first args)
    else if attr == "withColumn"
    then edit_with_column args
    else if attr == "withColumnRenamed"
    then edit_renamed config args
    else if attr == "cast"
    then edit_cast receiver args
    else if attr == "distinct"
    then edit_distinct args
    else if attr == "drop"
    then write_columns (all_texts args)
    else if attr == "limit"
    then edit_limit args
    else if attr == "filter"
    then edit_filter args
    else if attr == "dropDuplicates"
    then edit_deduplicate receiver args
    else if attr == "select"
    then write_columns (all_columns (values_of args))
    else ignored
