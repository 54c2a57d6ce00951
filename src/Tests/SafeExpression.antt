-- ===== src/Tests/SafeExpression.antt =====
-- Expressions that are accepted and refused.
use sdp_studio.Prelude.{String, ◌≡◌, refl, ◌↔◌, ◌⊎◌, some, none}
use sdp_studio.SafeExpression.{
  Refusal, accepted, refused, spark_function, sql_string, check,
  validate_custom_dataframe_expression,
}
use sdp_studio.SafeExpression.Syntax.{
  text, number, Ast, Asts, constant, name, attribute, call, node, bin_op, end, item,
}
use sdp_studio.SafeExpression.Grammar.{IsAllowed, Within}
use sdp_studio.SafeExpression.Exact.{
  validate_custom_dataframe_expression_exact, validate_custom_dataframe_expression_total,
}

abbrev method : Ast → String → Asts → Ast
method value attr args = call (attribute value attr "Load") args end

abbrev col_a : Ast
col_a = method (name "F" "Load") "col" (item (constant (text "a")) end)

-- `df.filter(F.col("a").isNull()).limit(3)`
abbrev filtered : Ast
filtered =
    method (method (name "df" "Load") "filter" (item (method col_a "isNull" end) end)) "limit"
      (item (constant (number "3")) end)

-- `df.filter("a > 1")`
abbrev sql_filter : Ast
sql_filter = method (name "df" "Load") "filter" (item (constant (text "a > 1")) end)

filtered_accepted : validate_custom_dataframe_expression filtered ≡ accepted
unfolding validate_custom_dataframe_expression
filtered_accepted = refl

sql_filter-refused : validate_custom_dataframe_expression sql_filter ≡ refused (sql_string "filter")
unfolding validate_custom_dataframe_expression
sql_filter-refused = refl

expr_refused :
    validate_custom_dataframe_expression (method (name "F" "Load") "expr" end)
    ≡ refused (spark_function "expr")
unfolding validate_custom_dataframe_expression
expr_refused = refl

validate_custom_dataframe_expression_exact_example :
    (validate_custom_dataframe_expression filtered ≡ accepted)
    ↔ ((x : Ast) → Within x filtered → IsAllowed x)
validate_custom_dataframe_expression_exact_example =
    validate_custom_dataframe_expression_exact filtered

validate_custom_dataframe_expression_total_example :
    ((validate_custom_dataframe_expression sql_filter ≡ accepted)
      × ((x : Ast) → Within x (node "Expression" (item sql_filter end)) → check x ≡ none))
    ⊎ ((r : Refusal) × (x : Ast) × (validate_custom_dataframe_expression sql_filter ≡ refused r)
        × Within x (node "Expression" (item sql_filter end))
        × (check x ≡ some r))
validate_custom_dataframe_expression_total_example =
    validate_custom_dataframe_expression_total sql_filter

-- `df.filter("1=1" * 2)` passes, although its argument is a text when it runs.
repeated_text :
    validate_custom_dataframe_expression (
      method
        (name "df" "Load")
        "filter"
        (item (bin_op (constant (text "1=1")) "Mult" (constant (number "2"))) end))
    ≡ accepted
unfolding validate_custom_dataframe_expression
repeated_text = refl
