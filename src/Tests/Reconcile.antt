-- ===== src/Tests/Reconcile.antt =====
-- A pipeline of a table, a filter and an output, and edits of the code that is generated for it.
use sdp_studio.Prelude.{
  inl, inr, any, eqb, ◌||◌, false, none, some, ℕ, String, ◌≡◌, refl, ◌↔◌, ◌⊎◌, ◌<◌, true, List, [],
  ◌∷◌, length, Memᴰ, arith, ap, sym, subst,
}
use sdp_studio.Prelude.Dict.{lookup, insert}
use sdp_studio.Prelude.Text.{strip}
use sdp_studio.Json.{Json, Items, Fields, get}
use sdp_studio.Models.{Node, PipelineDocument, node_ids, ensure_unique_ids, valid}
use sdp_studio.Models.Ids.{Distinct, ensure_unique_ids-valid_iff}
use sdp_studio.Reconcile.{ReconcileResult, reconcile_python, start_state, values}
use sdp_studio.Reconcile.Region.{visual, custom}
use sdp_studio.Reconcile.Syntax.{
  returns, text, Expr, constant, name, attribute, call, list_of, Exprs, item, no_more, keyword,
  Form, assign, Statement, Parsed, module_of,
}
use sdp_studio.Reconcile.Markers.{InOrder, parse_ownership_markers, parse_ownership_markers-InOrder}
use sdp_studio.Reconcile.Edits.{text_called, set_field, update}
use sdp_studio.Reconcile.Copies.{State}
use sdp_studio.Reconcile.Decorators.{read_decorators}
use sdp_studio.Reconcile.Statements.{read_body}
use sdp_studio.Reconcile.Variables.{
  generated_variable, code_points, LongIds, IsGenerated, read_body-passes_over,
}
use sdp_studio.Reconcile.Safe.{Left, Adopted, reconcile_python-safe}
use sdp_studio.Reconcile.Acceptable.{accepts_code}
use sdp_studio.Reconcile.Accepted.{reconcile_python-visual_iff}

abbrev node : String → String → Fields → Node
node id type config = record { id = id; type = type; operator_version = 1; config = config }

abbrev single : String → Json → Fields
single k v = Fields.field k v Fields.end

abbrev document_of : String → PipelineDocument
document_of filter_id = record {
  schema_version = 1;
  pipeline_id = "p";
  name = "main";
  revision = 0;
  nodes =
      node "source" "source.table" (single "table" (Json.str "raw"))
      ∷ node filter_id "transform.filter" (single "expression" (Json.str "x > 1"))
      ∷ node "out" "dataset.materialized_view" (single "name" (Json.str "gold"))
      ∷ [];
  edges = [];
}

abbrev args : String → Exprs
args s = item (constant (text s)) Exprs.end

abbrev method : Expr → String → Exprs → Expr
method receiver attr es = call (attribute receiver attr) es no_more

abbrev at_line : ℕ → Form → Statement
at_line n form = record { lineno = n; end_lineno = n; form = form }

-- `n_filter = <value>` in the function of the output
abbrev code_of : Expr → Parsed
code_of value = module_of (
    record {
      name = "gold";
      decorator_list =
          record { lineno = 3; form = method (name "dp") "materialized_view" Exprs.end } ∷ [];
      body = at_line 5 (assign (name "n_filter" ∷ []) value) ∷ at_line 6 returns ∷ [];
    }
    ∷ [])

-- `n_source.filter(F.expr("y > 2"))`
abbrev edited : Parsed
edited =
    code_of
      (method (name "n_source") "filter" (item (method (name "F") "expr" (args "y > 2")) Exprs.end))

-- `n_source.orderBy("x")`
abbrev sorted : Parsed
sorted = code_of (method (name "n_source") "orderBy" (args "x"))

-- The expression is taken over, and the filter owned by the graph.
edited_runs :
    reconcile_python (document_of "filter") ("def gold():" ∷ []) edited
    ≡ some (record {
      document = record (document_of "filter") {
        nodes =
            node "source" "source.table" (single "table" (Json.str "raw"))
            ∷ node "filter" "transform.filter" (single "expression" (Json.str "y > 2"))
            ∷ node "out" "dataset.materialized_view" (single "name" (Json.str "gold"))
            ∷ [];
      };
      changed = true;
      ownership = visual;
      problems = [];
      regions =
          record { start_line = 5; end_line = 5; ownership = visual; node_id = some "filter" } ∷ [];
    })
unfolding reconcile_python lookup insert get set_field update text_called strip
edited_runs = refl

-- An edit by a method that is not read is neither reported nor kept: the code is owned by the graph,
-- which is as before.
sorted_runs :
    reconcile_python (document_of "filter") ("def gold():" ∷ []) sorted
    ≡ some (record {
      document = document_of "filter";
      changed = false;
      ownership = visual;
      problems = [];
      regions = [];
    })
unfolding reconcile_python lookup insert get set_field text_called strip
sorted_runs = refl

-- Without a target, the keys of a change data capture go to the first node that has no name.
stray_keys :
    values
      (read_decorators "other"
        (record {
          lineno = 1;
          form =
              call
                (attribute (name "dp") "create_auto_cdc_flow")
                Exprs.end
                (keyword (some "keys") (list_of (args "id")) no_more);
        }
          ∷ [])
        (start_state (document_of "filter"))).nodes
    ≡ node "source" "source.table" (
        Fields.field "table"
          (Json.str "raw")
          (single "keys" (Json.list (Items.cons (Json.str "id") Items.nil))))
      ∷ node "filter" "transform.filter" (single "expression" (Json.str "x > 1"))
      ∷ node "out" "dataset.materialized_view" (single "name" (Json.str "gold"))
      ∷ []
unfolding read_decorators start_state lookup insert get set_field
stray_keys = refl

abbrev marked : List String
marked = "  # sdpstudio:region node=n1 ownership=custom" ∷ "x = 1" ∷ "# sdpstudio:endregion" ∷ []

marked_runs :
    parse_ownership_markers marked
    ≡ record { start_line = 1; end_line = 3; ownership = custom; node_id = some "n1" } ∷ []
unfolding parse_ownership_markers
marked_runs = refl

parse_ownership_markers-InOrder_example : InOrder 1 3 (parse_ownership_markers marked)
parse_ownership_markers-InOrder_example = parse_ownership_markers-InOrder marked

document_unique : ensure_unique_ids (document_of "filter") ≡ valid (document_of "filter")
unfolding ensure_unique_ids
document_unique = refl

document-Distinct : Distinct (node_ids (document_of "filter"))
document-Distinct = ((ensure_unique_ids-valid_iff (document_of "filter")).0 document_unique).0

abbrev unchanged : ReconcileResult
unchanged = record {
  document = document_of "filter";
  changed = false;
  ownership = visual;
  problems = [];
  regions = [];
}

reconcile_python-safe_example :
    Left (document_of "filter") unchanged ⊎ Adopted (document_of "filter") unchanged
reconcile_python-safe_example =
    reconcile_python-safe (document_of "filter") ("def gold():" ∷ []) sorted unchanged
      document-Distinct sorted_runs

reconcile_python-visual_iff_example :
    (visual ≡ visual) ↔ (accepts_code (document_of "filter") ("def gold():" ∷ []) sorted ≡ true)
reconcile_python-visual_iff_example =
    reconcile_python-visual_iff (document_of "filter") ("def gold():" ∷ []) sorted unchanged
      document-Distinct sorted_runs

abbrev long_node : Node
long_node = node "01JABfilter" "transform.filter" (single "expression" (Json.str "x > 1"))

-- `n_abfilter = n_source.filter(F.expr("y > 2"))`
abbrev long_value : Expr
long_value =
    method (name "n_source") "filter" (item (method (name "F") "expr" (args "y > 2")) Exprs.end)

abbrev long_body : List Statement
long_body =
    at_line 5 (assign (name "n_abfilter" ∷ []) long_value)
    ∷ at_line 6 (assign (name "n_abfilter_quarantine" ∷ []) long_value)
    ∷ at_line 7 returns
    ∷ []

abbrev empty_state : State
empty_state = record { nodes = []; problems = []; regions = [] }

long_body-IsGenerated : (s : Statement) → Memᴰ s long_body → IsGenerated s
unfolding generated_variable
long_body-IsGenerated s (Memᴰ.head e) =
    inl ("n_abfilter", "01JABfilter", none, long_value, ap (λ (t : Statement). t.form) e, refl)
long_body-IsGenerated s (Memᴰ.tail (Memᴰ.head e)) = inl (
  "n_abfilter_quarantine",
  "01JABfilter",
  some "quarantine",
  long_value,
  ap (λ (t : Statement). t.form) e,
  refl,
)
long_body-IsGenerated s (Memᴰ.tail (Memᴰ.tail (Memᴰ.head e))) =
    inr (ap (λ (t : Statement). t.form) e)
long_body-IsGenerated s (Memᴰ.tail (Memᴰ.tail (Memᴰ.tail m))) = elim m [ ]

long_node_long : LongIds (long_node ∷ [])
long_node_long n (Memᴰ.head e) = (
  subst (λ (w : Node). 8 < length (code_points w.id)) (sym e) (omega arith),
  subst (λ (w : Node). any (λ c. eqb c 45 || eqb c 95) (code_points w.id) ≡ false) (sym e) refl,
)
long_node_long n (Memᴰ.tail m) = elim m [ ]

read_body-passes_over_example : read_body (long_node ∷ []) long_body empty_state ≡ some empty_state
read_body-passes_over_example =
    read_body-passes_over (long_node ∷ []) long_body empty_state long_node_long
      long_body-IsGenerated
