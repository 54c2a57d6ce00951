-- ===== src/Reconcile/Accepted.antt =====
-- `reconcile_python` owns exactly the code that the description accepts.
use sdp_studio.Prelude.{
  String, ◌≡◌, refl, sym, ◌↔◌, Bool, true, false, ◌&&◌, not, all, List, [], ◌∷◌, ◌++◌, Option, none,
  some, keep, count, length, eqb, if◌then◌else◌, arith, subst,
}
use sdp_studio.Models.{Node, PipelineDocument, node_ids}
use sdp_studio.Prelude.Dict.{lookup}
use sdp_studio.Models.Ids.{Distinct}
use sdp_studio.Reconcile.{
  ReconcileResult, values, start_state, conclude, conclude_with, reconcile_python, refused,
  is_output_function, is_generated, has_text, no_line, whole_text,
}
use sdp_studio.Reconcile.Region.{OwnershipRegion, visual}
use sdp_studio.Reconcile.Safe.{values-start_state}
use sdp_studio.Reconcile.Syntax.{
  Form, Statement, Decorator, FunctionDef, Parsed, syntax_error, module_of, Expr, exprs,
}
use sdp_studio.Reconcile.Edits.{Edit, supported, bad_filter, ignored, raises, edit_of}
use sdp_studio.Reconcile.Edits.Refused.{is_bad, is_bad-edit_of}
use sdp_studio.Reconcile.Copies.{State, ReconcileProblem, node_for}
use sdp_studio.Reconcile.Decorators.{read_decorator, read_decorator_form, read_decorators}
use sdp_studio.Reconcile.Statements.{
  is_capture, read_form, read_statement, read_assignment, read_value, apply_edit, refuse, config_of,
  read_body, read_functions, ◌>>=◌,
}
use sdp_studio.Reconcile.Acceptable.{
  accepts_decorator, accepts_value, accepts, accepts_function, accepts_code,
}

abbrev is_nil : List ReconcileProblem → Bool
is_nil [] = true
is_nil (p ∷ ps) = false

is_nil-append : (ps : List ReconcileProblem) (p : ReconcileProblem) → is_nil (ps ++ p ∷ []) ≡ false
is_nil-append [] p = refl
is_nil-append (q ∷ ps) p = refl

-- After a step there is no problem exactly if there was none and the step is accepted.
abbrev Judges : Bool → State → Option State → Type 0
Judges b state none = Unit
Judges b state (some after) = is_nil after.problems ≡ is_nil state.problems && b

Judges-apply_edit :
    (s : Statement) (id : String) (e : Edit) (state : State)
    → Judges (not (is_bad e)) state (apply_edit s id e state)
unfolding apply_edit refuse
Judges-apply_edit s id (supported changes) state = ground arith
Judges-apply_edit s id bad_filter state = ground (arith, is_nil-append state.problems)
Judges-apply_edit s id ignored state = ground arith
Judges-apply_edit s id raises state = tt

Judges-read_value :
    (s : Statement) (id : String) (value : Expr) (state : State)
    → Judges (accepts_value value) state (read_value s id value state)
unfolding read_value refuse
Judges-read_value s id (Expr.call (Expr.attribute receiver attr) args keywords) state =
    let config = config_of (lookup id state.nodes) in
    subst
      (λ b.
        Judges (not b) state (apply_edit s id (edit_of attr receiver (exprs args) config) state))
      (is_bad-edit_of attr receiver (exprs args) config)
      (Judges-apply_edit s id (edit_of attr receiver (exprs args) config) state)
Judges-read_value s id _ state = ground (arith, is_nil-append state.problems)

Judges-node_for :
    (o : Option String) (s : Statement) (value : Expr) (state : State)
    → Judges
        (elim o [ none ↦ true | some id ↦ accepts_value value ])
        state
        (elim o [ none ↦ some state | some id ↦ read_value s id value state ])
Judges-node_for none s value state = ground arith
Judges-node_for (some id) s value state = Judges-read_value s id value state

Judges-capture :
    (b : Bool) (s : Statement) (state : State)
    → Judges b state (if b then some state else some (refuse s none state))
unfolding refuse
Judges-capture true s state = ground arith
Judges-capture false s state = ground (arith, is_nil-append state.problems)

Judges-form :
    (ns : List Node) (s : Statement) (form : Form) (state : State)
    → Judges (accepts ns form) state (read_form ns s form state)
unfolding read_form read_assignment refuse
Judges-form ns s (Form.expression e) state = Judges-capture (is_capture e) s state
Judges-form ns s (Form.assign (Expr.name v ∷ []) value) state =
    Judges-node_for (node_for v ns) s value state
Judges-form ns s Form.returns state = ground arith
Judges-form ns s _ state = ground (arith, is_nil-append state.problems)

chain :
    (a b : Bool) (state after : State) (o : Option State)
    → is_nil after.problems ≡ is_nil state.problems && a
    → Judges b after o
    → Judges (a && b) state o
chain a b state after none h g = tt
chain a b state after (some last) h g = ground arith

Judges-bind :
    (a b : Bool) (state : State) (o : Option State) (next : State → Option State)
    → Judges a state o
    → ((after : State) → Judges b after (next after))
    → Judges (a && b) state (o >>= next)
Judges-bind a b state none next h later = tt
Judges-bind a b state (some after) next h later = chain a b state after (next after) h (later after)

Judges-read_body :
    (ns : List Node) (body : List Statement) (state : State)
    → Judges (all (λ s. accepts ns s.form) body) state (read_body ns body state)
unfolding read_body read_statement
Judges-read_body ns [] state = ground arith
Judges-read_body ns (s ∷ body) state =
    Judges-bind (accepts ns s.form) (all (λ t. accepts ns t.form) body) state
      (read_statement ns s state) (read_body ns body) (Judges-form ns s s.form state)
      (λ after. Judges-read_body ns body after)

judged_form :
    (function : String) (d : Decorator) (form : Expr) (state : State)
    → is_nil (read_decorator_form function d form state).problems
      ≡ is_nil state.problems && accepts_decorator form
unfolding read_decorator_form
judged_form function d (Expr.call (Expr.attribute owner attr) args keywords) state =
    ground (arith, is_nil-append state.problems)
judged_form function d _ state = ground arith

judged_decorators :
    (function : String) (ds : List Decorator) (state : State)
    → is_nil (read_decorators function ds state).problems
      ≡ is_nil state.problems && all (λ d. accepts_decorator d.form) ds
unfolding read_decorators read_decorator
judged_decorators function [] state = ground arith
judged_decorators function (d ∷ ds) state = ground (
  arith,
  judged_decorators function ds (read_decorator function d state),
  judged_form function d d.form state,
)

and_assoc : (a b c : Bool) → a && (b && c) ≡ (a && b) && c
and_assoc true b c = refl
and_assoc false b c = refl

not-not : (b : Bool) → not (not b) ≡ b
not-not true = refl
not-not false = refl

Judges-read_functions :
    (ns : List Node) (fs : List FunctionDef) (state : State)
    → Judges (all (accepts_function ns) fs) state (read_functions ns fs state)
unfolding read_functions
Judges-read_functions ns [] state = ground arith
Judges-read_functions ns (f ∷ fs) state =
    let begun = read_decorators f.name f.decorator_list state in
    let good = all (λ d. accepts_decorator d.form) f.decorator_list in
    let sound = all (λ s. accepts ns s.form) f.body in
    let rest = all (accepts_function ns) fs in
    subst (λ b. Judges b state (read_functions ns (f ∷ fs) state)) (and_assoc good sound rest)
      (chain good (sound && rest) state begun (read_functions ns (f ∷ fs) state)
        (judged_decorators f.name f.decorator_list state)
        (Judges-bind sound rest begun (read_body ns f.body begun) (read_functions ns fs)
          (Judges-read_body ns f.body begun) (λ after. Judges-read_functions ns fs after)))

abbrev Verdict : Bool → Option ReconcileResult → Type 0
Verdict b none = Unit
Verdict b (some r) = (r.ownership ≡ visual) ↔ (b ≡ true)

conclude_with-Verdict :
    (document : PipelineDocument) (source : List String) (problems : List ReconcileProblem)
    (state : State)
    → Verdict (is_nil problems) (some (conclude_with document source problems state))
unfolding conclude_with
conclude_with-Verdict document source (p ∷ ps) state = (λ e. cc, λ e. cc)
conclude_with-Verdict document source [] state = (λ e. refl, λ e. refl)

finish-Verdict :
    (document : PipelineDocument) (source : List String) (b : Bool) (o : Option State)
    → Judges b (start_state document) o
    → Verdict b (o >>= λ state. some (conclude document source state))
unfolding conclude start_state
finish-Verdict document source b none judged = tt
finish-Verdict document source b (some state) judged =
    subst (λ c. Verdict c (some (conclude_with document source state.problems state))) judged
      (conclude_with-Verdict document source state.problems state)

-- A refusal ahead of everything else.
Verdict-if :
    (document : PipelineDocument) (stop b : Bool) (problems : List ReconcileProblem)
    (regions : List OwnershipRegion) (o : Option ReconcileResult)
    → Verdict b o
    → Verdict (not stop && b) (if stop then some (refused document problems regions) else o)
Verdict-if document true b problems regions o h = (λ e. cc, λ e. cc)
Verdict-if document false b problems regions o h = h

reconcile_python-Verdict :
    (document : PipelineDocument) (source : List String) (parsed : Parsed)
    → Distinct (node_ids document)
    → Verdict (accepts_code document source parsed) (reconcile_python document source parsed)
unfolding reconcile_python
reconcile_python-Verdict document source (syntax_error lineno) distinct = (λ e. cc, λ e. cc)
reconcile_python-Verdict document source (module_of functions) distinct =
    let outputs = keep is_output_function functions in
    let start = start_state document in
    let accepted = all (accepts_function document.nodes) outputs in
    let counted = eqb (length outputs) (count is_generated document.nodes) in
    Verdict-if document (eqb (length outputs) 0 && has_text source) (counted && accepted) _ _ _ (
      subst
        (λ c. Verdict (c && accepted) (
          if not counted
          then some (refused document (no_line "SDPS-RECON-002" ∷ []) (whole_text (length source)))
          else (read_functions (values start.nodes) outputs start >>= λ state.
              some (conclude document source state))))
        (not-not counted)
        (Verdict-if document (not counted) accepted _ _ _ (
          finish-Verdict document source accepted
            (read_functions (values start.nodes) outputs start)
            (subst (λ ns. Judges accepted start (read_functions ns outputs start))
              (sym (values-start_state document distinct))
              (Judges-read_functions document.nodes outputs start)))))

-- If the node ids of a document are distinct, a result of the reconciliation owns the code exactly
-- if the code is accepted: it parses; it has as many output functions as the document has outputs,
-- and one at least if it has any text; their decorators that call a method call one of the five that
-- the generator writes; and each of their statements is the call of the instrumentation, a `return`,
-- or an assignment to one name, which is of no node or gets a call of a method, other than a filter
-- on a call that is not `F.expr` of a text. The method may be any other, known or not.
pub reconcile_python-visual_iff :
    (document : PipelineDocument) (source : List String) (parsed : Parsed) (r : ReconcileResult)
    → Distinct (node_ids document)
    → reconcile_python document source parsed ≡ some r
    → (r.ownership ≡ visual) ↔ (accepts_code document source parsed ≡ true)
reconcile_python-visual_iff document source parsed r distinct e =
    subst (Verdict (accepts_code document source parsed)) e
      (reconcile_python-Verdict document source parsed distinct)
