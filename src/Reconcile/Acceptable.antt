-- ===== src/Reconcile/Acceptable.antt =====
-- Which edits `reconcile_python` accepts: a description without the state that the source carries
-- from statement to statement.
use sdp_studio.Prelude.{
  String, Bool, true, false, ◌&&◌, not, all, List, [], ◌∷◌, none, some, contains, keep, count,
  length, eqb, ◌==◌,
}
use sdp_studio.Models.{Node, PipelineDocument}
use sdp_studio.Reconcile.{is_output_function, is_generated, has_text}
use sdp_studio.Reconcile.Syntax.{Form, FunctionDef, Parsed, syntax_error, module_of, Expr, exprs}
use sdp_studio.Reconcile.Edits.Refused.{is_foreign_filter}
use sdp_studio.Reconcile.Copies.{node_for}
use sdp_studio.Reconcile.Decorators.{known_decorators}
use sdp_studio.Reconcile.Statements.{is_capture}

-- A decorator that is no call of an attribute, or one of the five that the generator writes.
abbrev pub accepts_decorator : Expr → Bool
accepts_decorator (Expr.call (Expr.attribute _ attr) _ _) = contains known_decorators attr
accepts_decorator _ = true

-- Any call of a method, but for such a filter.
abbrev pub accepts_value : Expr → Bool
accepts_value (Expr.call (Expr.attribute _ attr) args _) =
    not (attr == "filter" && is_foreign_filter (exprs args))
accepts_value _ = false

-- The call of the instrumentation, a `return`, and an assignment to one name, which is no node's or
-- gets an accepted value.
abbrev pub accepts : List Node → Form → Bool
accepts ns (Form.expression e) = is_capture e
accepts ns (Form.assign (Expr.name v ∷ []) value) = elim (node_for v ns) [
  | none ↦ true
  | some id ↦ accepts_value value
]
accepts ns Form.returns = true
accepts ns _ = false

abbrev pub accepts_function : List Node → FunctionDef → Bool
accepts_function ns f =
    all (λ d. accepts_decorator d.form) f.decorator_list && all (λ s. accepts ns s.form) f.body

-- The code parses, has as many output functions as the document has outputs (and some, if there is
-- any code), and every output function is accepted.
abbrev pub accepts_code : PipelineDocument → List String → Parsed → Bool
accepts_code document source (syntax_error _) = false
accepts_code document source (module_of functions) =
    let outputs = keep is_output_function functions in
    not (eqb (length outputs) 0 && has_text source)
    && (eqb (length outputs) (count is_generated document.nodes)
        && all (accepts_function document.nodes) outputs)
