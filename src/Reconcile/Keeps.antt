-- ===== src/Reconcile/Keeps.antt =====
-- The steps of a reconciliation change nothing of the copies of the nodes but configurations.
use sdp_studio.Prelude.{
  ℕ, String, ◌≡◌, refl, ap, sym, ◌∙◌, inl, inr, Bool, true, false, List, [], ◌∷◌, ◌++◌, Option,
  none, some, Option-cases, Bool-cases, contains, ◌==◌, if◌then◌else◌, arith,
}
use sdp_studio.Prelude.Dict.{Dict, lookup, insert}
use sdp_studio.Json.{Fields}
use sdp_studio.Models.{Node}
use sdp_studio.Reconcile.Syntax.{Form, Statement, Decorator, FunctionDef, Expr, Keywords, exprs}
use sdp_studio.Reconcile.Edits.{Edit, supported, bad_filter, ignored, raises, update}
use sdp_studio.Reconcile.Copies.{State, problem, find_named, write_config, write_if, node_for}
use sdp_studio.Reconcile.Decorators.{
  read_decorator, read_decorator_form, read_decorators, known_decorator, known_decorators,
  rename_output, capture, or_find, target_text,
}
use sdp_studio.Reconcile.Statements.{
  is_capture, read_form, read_statement, read_assignment, read_value, apply_edit, refuse, read_body,
  read_functions, ◌>>=◌,
}

-- What a reconciliation must not change of a node.
pub record Outline : Type 0 where
  pub id : String
  pub type : String
  pub operator_version : ℕ

abbrev pub outline : Node → Outline
outline n = record { id = n.id; type = n.type; operator_version = n.operator_version }

abbrev pub entries : Dict Node → List (String × Outline)
entries [] = []
entries ((k, n) ∷ d) = (k, outline n) ∷ entries d

entries-insert :
    (id : String) (n : Node) (config : Fields) (d : Dict Node)
    → lookup id d ≡ some n
    → entries (insert id (record n { config = config }) d) ≡ entries d
unfolding lookup insert
entries-insert id n config [] h = cc
entries-insert id n config ((k, w) ∷ d) h = elim (Bool-cases (k == id)) [
  | inl here ↦
      let same : w ≡ n = ground arith in
      rw here (ap (λ (x : Node). (k, outline x) ∷ entries d) (sym same))
  | inr off ↦ rw off (ap (λ l. (k, outline w) ∷ l) (entries-insert id n config d (ground arith)))
]

entries-write_config :
    (id : String) (f : Fields → Fields) (d : Dict Node) → entries (write_config id f d) ≡ entries d
unfolding write_config
entries-write_config id f d = elim (Option-cases (lookup id d)) [
  | inl missing ↦ rw missing refl
  | inr (n, found) ↦ rw found (entries-insert id n (f n.config) d found)
]

entries-write_if :
    (o : Option String) (f : Fields → Fields) (d : Dict Node) → entries (write_if o f d) ≡ entries d
unfolding write_if
entries-write_if none f d = refl
entries-write_if (some id) f d = entries-write_config id f d

-- A step that keeps the entries, if it yields a state.
abbrev pub Keeps : State → Option State → Type 0
Keeps state none = Unit
Keeps state (some after) = entries after.nodes ≡ entries state.nodes

Keeps-apply_edit :
    (s : Statement) (id : String) (e : Edit) (state : State) → Keeps state (apply_edit s id e state)
unfolding apply_edit refuse
Keeps-apply_edit s id (supported changes) state =
    entries-write_config id (update changes) state.nodes
Keeps-apply_edit s id bad_filter state = refl
Keeps-apply_edit s id ignored state = refl
Keeps-apply_edit s id raises state = tt

Keeps-read_value :
    (s : Statement) (id : String) (value : Expr) (state : State)
    → Keeps state (read_value s id value state)
unfolding read_value refuse
Keeps-read_value s id (Expr.call (Expr.attribute receiver attr) args keywords) state =
    Keeps-apply_edit s id _ state
Keeps-read_value s id _ state = refl

Keeps-node_for :
    (o : Option String) (s : Statement) (value : Expr) (state : State)
    → Keeps state (elim o [ none ↦ some state | some id ↦ read_value s id value state ])
Keeps-node_for none s value state = refl
Keeps-node_for (some id) s value state = Keeps-read_value s id value state

Keeps-capture :
    (b : Bool) (s : Statement) (state : State)
    → Keeps state (if b then some state else some (refuse s none state))
unfolding refuse
Keeps-capture true s state = refl
Keeps-capture false s state = refl

Keeps-form :
    (ns : List Node) (s : Statement) (form : Form) (state : State)
    → Keeps state (read_form ns s form state)
unfolding read_form read_assignment refuse
Keeps-form ns s (Form.expression e) state = Keeps-capture (is_capture e) s state
Keeps-form ns s (Form.assign (Expr.name v ∷ []) value) state =
    Keeps-node_for (node_for v ns) s value state
Keeps-form ns s Form.returns state = refl
Keeps-form ns s _ state = refl

follow :
    (state after : State) (o : Option State)
    → entries after.nodes ≡ entries state.nodes
    → Keeps after o
    → Keeps state o
follow state after none h g = tt
follow state after (some last) h g = g ∙ h

Keeps-bind :
    (state : State) (o : Option State) (next : State → Option State)
    → Keeps state o
    → ((after : State) → Keeps after (next after))
    → Keeps state (o >>= next)
Keeps-bind state none next h later = tt
Keeps-bind state (some after) next h later = follow state after (next after) h (later after)

Keeps-read_body :
    (ns : List Node) (body : List Statement) (state : State) → Keeps state (read_body ns body state)
unfolding read_body
Keeps-read_body ns [] state = refl
Keeps-read_body ns (s ∷ body) state =
    Keeps-bind state (read_statement ns s state) (read_body ns body) (Keeps-form ns s s.form state)
      (λ after. Keeps-read_body ns body after)

entries-rename_output :
    (o : Option String) (args : List Expr) (d : Dict Node)
    → entries (rename_output o args d) ≡ entries d
unfolding rename_output
entries-rename_output o args d = entries-write_if o _ d

entries-capture :
    (b : Bool) (o : Option String) (keywords : Keywords) (d : Dict Node)
    → entries (if b then capture o keywords d else d) ≡ entries d
unfolding capture
entries-capture true o keywords d = entries-write_if o _ d
entries-capture false o keywords d = refl

entries-known_decorator :
    (function attr : String) (args : List Expr) (keywords : Keywords) (d : Dict Node)
    → entries (known_decorator function attr args keywords d) ≡ entries d
unfolding known_decorator
entries-known_decorator function attr args keywords d =
    let output = find_named (some function) d in
    let renamed = rename_output output args d in
    entries-capture (attr == "create_auto_cdc_flow")
      (or_find output (find_named (target_text keywords) renamed)) keywords renamed
    ∙ entries-rename_output output args d

abbrev decorated : Bool → String → String → Decorator → List Expr → Keywords → State → State
decorated b function attr d args keywords state =
    if b
    then record state { nodes = known_decorator function attr args keywords state.nodes }
    else record state { problems = state.problems ++ problem "SDPS-RECON-003" d.lineno ∷ [] }

entries-known :
    (b : Bool) (function attr : String) (d : Decorator) (args : List Expr) (keywords : Keywords)
    (state : State)
    → entries (decorated b function attr d args keywords state).nodes ≡ entries state.nodes
entries-known true function attr d args keywords state =
    entries-known_decorator function attr args keywords state.nodes
entries-known false function attr d args keywords state = refl

entries-form :
    (function : String) (d : Decorator) (form : Expr) (state : State)
    → entries (read_decorator_form function d form state).nodes ≡ entries state.nodes
unfolding read_decorator_form
entries-form function d (Expr.call (Expr.attribute owner attr) args keywords) state =
    entries-known (contains known_decorators attr) function attr d (exprs args) keywords state
entries-form function d _ state = refl

entries-read_decorators :
    (function : String) (ds : List Decorator) (state : State)
    → entries (read_decorators function ds state).nodes ≡ entries state.nodes
unfolding read_decorators read_decorator
entries-read_decorators function [] state = refl
entries-read_decorators function (d ∷ ds) state =
    entries-read_decorators function ds (read_decorator function d state)
    ∙ entries-form function d d.form state

pub Keeps-read_functions :
    (ns : List Node) (fs : List FunctionDef) (state : State)
    → Keeps state (read_functions ns fs state)
unfolding read_functions
Keeps-read_functions ns [] state = refl
Keeps-read_functions ns (f ∷ fs) state =
    let begun = read_decorators f.name f.decorator_list state in
    follow state begun (read_functions ns (f ∷ fs) state)
      (entries-read_decorators f.name f.decorator_list state)
      (Keeps-bind begun (read_body ns f.body begun) (read_functions ns fs)
        (Keeps-read_body ns f.body begun) (λ after. Keeps-read_functions ns fs after))
