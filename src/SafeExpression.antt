-- ===== src/SafeExpression.antt =====
-- python/sdpstudio_codegen/safe_expression.py: the policy for custom dataframe expressions, on the
-- tree that `ast.parse(expression, mode="eval").body` returns. A text that does not parse is refused
-- by the source before any of this runs.
pub mod Allowed
pub mod Syntax
pub mod Grammar
pub mod Arguments
pub mod Calls
pub mod Exact
use package.text.Mathlib.Text.{starts_with}
use sdp_studio.Prelude.{
  ℕ, zero, suc, ◌+◌, String, Bool, true, false, List, [], ◌∷◌, ◌++◌, Option, none, some, not, ◌&&◌,
  ◌||◌, contains, if◌then◌else◌, ◌==◌,
}
use Allowed.{
  allowed_names, allowed_dataframe_methods, allowed_column_methods, allowed_functions,
  allowed_nodes,
}
use Syntax.{
  Literal, text, number, bytes, boolean, null, ellipsis, Ast, Asts, constant, name, attribute, call,
  bin_op, node, end, item, class_name, children,
}

-- One for each `raise ValueError`, with what its message quotes.
pub data Refusal : Type 0 where
  syntax_class : String → Refusal
  unknown_name : String → Refusal
  private_attribute : Refusal
  not_public_api : Refusal
  spark_function : String → Refusal
  not_allowed_call : String → String → Refusal
  chained_call : String → Refusal
  receiver : Refusal
  predicate_count : String → Refusal
  sql_string : String → Refusal

pub data Kind : Type 0 where
  dataframe column : Kind

-- The result of `_call_kind`: it returns a kind or raises.
pub data CallKind : Type 0 where
  returns : Kind → CallKind
  raises : Refusal → CallKind

unfoldable pub is_function : String → Bool
is_function attr = contains allowed_functions attr

unfoldable pub is_dataframe_method : String → Bool
is_dataframe_method attr = contains allowed_dataframe_methods attr

unfoldable pub is_column_method : String → Bool
is_column_method attr = contains allowed_column_methods attr

unfoldable pub is_allowed_node : Ast → Bool
is_allowed_node n = contains allowed_nodes (class_name n)

unfoldable pub is_private : String → Bool
is_private attr = starts_with attr "_"

-- `method in {"filter", "where"}`
abbrev pub is_filter : String → Bool
is_filter method = method == "filter" || method == "where"

abbrev pub is_concat : String → Bool
is_concat op = op == "Add" || op == "Mod"

pub is_python_string_expression : Ast → Bool
is_python_string_expression (constant (text s)) = true
is_python_string_expression (constant (number s)) = false
is_python_string_expression (constant (bytes s)) = false
is_python_string_expression (constant (boolean b)) = false
is_python_string_expression (constant null) = false
is_python_string_expression (constant ellipsis) = false
is_python_string_expression (bin_op left op right) =
    is_concat op && (is_python_string_expression left && is_python_string_expression right)
is_python_string_expression (name id ctx) = false
is_python_string_expression (attribute value attr ctx) = false
is_python_string_expression (call func args keywords) = false
is_python_string_expression (node class fields) = false

-- The two checks of the arguments of `filter` and `where`.
pub predicate : String → Asts → Asts → Option Refusal
unfolding is_python_string_expression
predicate method (item arg end) end =
    if is_python_string_expression arg then some (sql_string method) else none
predicate method (item arg end) (item keyword keywords) = some (predicate_count method)
predicate method (item arg (item other args)) keywords = some (predicate_count method)
predicate method end keywords = some (predicate_count method)

pub validate_dataframe_call : String → Asts → Asts → Option Refusal
unfolding predicate
validate_dataframe_call method args keywords =
    if is_filter method then predicate method args keywords else none

-- A dataframe, once its call has been validated.
abbrev pub dataframe_unless : Option Refusal → CallKind
dataframe_unless none = returns dataframe
dataframe_unless (some r) = raises r

-- A call on `F` or on `df`.
pub named_call : String → String → Asts → Asts → CallKind
unfolding is_function is_dataframe_method validate_dataframe_call
named_call id attr args keywords =
    if id == "F"
    then (if is_function attr then returns column else raises (spark_function attr))
    else if id == "df" && is_dataframe_method attr
    then dataframe_unless (validate_dataframe_call attr args keywords)
    else raises (not_allowed_call id attr)

-- A call on the result of a call, of the kind given.
pub chained : CallKind → String → Asts → Asts → CallKind
unfolding is_column_method is_dataframe_method validate_dataframe_call
chained (raises r) attr args keywords = raises r
chained (returns column) attr args keywords =
    if is_column_method attr then returns column else raises (chained_call attr)
chained (returns dataframe) attr args keywords =
    if is_dataframe_method attr
    then dataframe_unless (validate_dataframe_call attr args keywords)
    else raises (chained_call attr)

-- `_call_kind`, on the parts of the call.
pub call_kind : Ast → Asts → Asts → CallKind
unfolding named_call chained is_private
call_kind (attribute (name id c) attr ctx) args keywords =
    if is_private attr then raises not_public_api else named_call id attr args keywords
call_kind (attribute (call func inner others) attr ctx) args keywords =
    let parent_kind = call_kind func inner others in
    if is_private attr then raises not_public_api else chained parent_kind attr args keywords
call_kind (attribute (constant c) attr ctx) args keywords =
    if is_private attr then raises not_public_api else raises receiver
call_kind (attribute (attribute v a c) attr ctx) args keywords =
    if is_private attr then raises not_public_api else raises receiver
call_kind (attribute (bin_op l o r) attr ctx) args keywords =
    if is_private attr then raises not_public_api else raises receiver
call_kind (attribute (node c fs) attr ctx) args keywords =
    if is_private attr then raises not_public_api else raises receiver
call_kind (constant c) args keywords = raises not_public_api
call_kind (name id c) args keywords = raises not_public_api
call_kind (call f a k) args keywords = raises not_public_api
call_kind (bin_op l o r) args keywords = raises not_public_api
call_kind (node c fs) args keywords = raises not_public_api

abbrev pub raised : CallKind → Option Refusal
raised (returns k) = none
raised (raises r) = some r

-- The checks by class.
pub check_class : Ast → Option Refusal
unfolding call_kind is_private
check_class (name id ctx) = if contains allowed_names id then none else some (unknown_name id)
check_class (attribute value attr ctx) = if is_private attr then some private_attribute else none
check_class (call func args keywords) = raised (call_kind func args keywords)
check_class (constant c) = none
check_class (bin_op left op right) = none
check_class (node class fields) = none

-- The body of the loop: what it raises for a node, if anything.
unfoldable pub check : Ast → Option Refusal
unfolding check_class is_allowed_node
check n = if is_allowed_node n then check_class n else some (syntax_class (class_name n))

pub data Verdict : Type 0 where
  accepted : Verdict
  refused : Refusal → Verdict
  out_of_fuel : Verdict

-- `for node in ast.walk(tree)`: breadth first, the children of a node behind the nodes that wait.
unfoldable pub walk : ℕ → List Ast → Verdict
unfolding check
walk zero [] = accepted
walk zero (n ∷ todo) = out_of_fuel
walk (suc fuel) [] = accepted
walk (suc fuel) (n ∷ todo) = elim (check n) [
  | some r ↦ refused r
  | none ↦ walk fuel (todo ++ children n)
]

-- The number of nodes.
unfoldable mutual
  pub size : Ast → ℕ
  size (constant c) = 1
  size (name id ctx) = 2
  size (attribute value attr ctx) = 2 + size value
  size (call func args keywords) = 1 + (size func + (sizes args + sizes keywords))
  size (bin_op left op right) = 2 + (size left + size right)
  size (node class fields) = 1 + sizes fields

  pub sizes : Asts → ℕ
  sizes end = 0
  sizes (item a others) = size a + sizes others

-- `ast.walk` starts at the `Expression` that holds the body.
unfoldable pub validate_custom_dataframe_expression : Ast → Verdict
unfolding walk size
validate_custom_dataframe_expression body =
    let tree = node "Expression" (item body end) in walk (size tree) (tree ∷ [])
