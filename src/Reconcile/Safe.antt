-- ===== src/Reconcile/Safe.antt =====
-- The result of `reconcile_python`: either the document as it was, with problems, or one with the
-- same nodes, of which only configurations differ, and no problem.
use sdp_studio.Prelude.{
  String, ◌≡◌, ◌≢◌, refl, ap, sym, ◌∙◌, ◌⊎◌, inl, inr, Bool, true, false, List, [], ◌∷◌, ◌++◌, map,
  Option, none, some, Bool-cases, contains, contains-eq-occ, ◌==◌, eq_iff, eq_refl, if◌then◌else◌,
  arith, ◌&&◌, subst, keep, count, length, not, eqb,
}
use mathlib.Core.List.{append-nil, append_assoc}
use sdp_studio.Prelude.Dict.{Dict, lookup, insert, lookup-insert}
use sdp_studio.Models.{Node, PipelineDocument, node_ids}
use sdp_studio.Models.Ids.{Distinct}
use sdp_studio.Graph.Index.{nodes_by_id}
use sdp_studio.Reconcile.{
  ReconcileResult, values, start_state, conclude, conclude_with, reconcile_python, refused,
  is_output_function, is_generated, has_text, no_line, one_line, line_or_one, whole_text,
}
use sdp_studio.Reconcile.Region.{OwnershipRegion, visual, custom}
use sdp_studio.Reconcile.Syntax.{Parsed, syntax_error, module_of}
use sdp_studio.Reconcile.Copies.{State, ReconcileProblem}
use sdp_studio.Reconcile.Statements.{read_functions, ◌>>=◌}
use sdp_studio.Reconcile.Keeps.{Outline, outline, entries, Keeps, Keeps-read_functions}

insert-fresh :
    (k : String) (n : Node) (d : Dict Node) → lookup k d ≡ none → insert k n d ≡ d ++ (k, n) ∷ []
unfolding lookup insert
insert-fresh k n [] h = refl
insert-fresh k n ((j, w) ∷ d) h = elim (Bool-cases (j == k)) [
  | inl here ↦ absurd (ground arith)
  | inr off ↦ rw off (ap (λ l. (j, w) ∷ l) (insert-fresh k n d (ground arith)))
]

table_of : List Node → Dict Node
table_of [] = []
table_of (n ∷ ns) = (n.id, n) ∷ table_of ns

nodes_by_id-table :
    (ns : List Node) (d : Dict Node)
    → Distinct (map (λ n. n.id) ns)
    → ((v : String) → contains (map (λ n. n.id) ns) v ≡ true → lookup v d ≡ none)
    → nodes_by_id ns d ≡ d ++ table_of ns
unfolding nodes_by_id table_of
nodes_by_id-table [] d distinct fresh = sym (append-nil d)
nodes_by_id-table (n ∷ ns) d distinct fresh =
    nodes_by_id-table ns (insert n.id n d) (λ v. ground (arith, distinct v))
      (λ v m. ground (
        arith,
        lookup-insert n.id v n d,
        fresh v,
        distinct v,
        eq_iff n.id v,
        contains-eq-occ (map (λ (w : Node). w.id) ns) v,
      ))
    ∙ ap (λ l. l ++ table_of ns) (insert-fresh n.id n d (fresh n.id (ground (arith, eq_refl n.id))))
    ∙ append_assoc d ((n.id, n) ∷ []) (table_of ns)

values_lem : (d : Dict Node) → map outline (values d) ≡ map (λ (k, o). o) (entries d)
values_lem [] = refl
values_lem ((k, n) ∷ d) = ap (λ l. outline n ∷ l) (values_lem d)

outlines_of_entries :
    (d e : Dict Node) → entries d ≡ entries e → map outline (values d) ≡ map outline (values e)
outlines_of_entries d e h = values_lem d ∙ ap (map (λ (k, o). o)) h ∙ sym (values_lem e)

values-table_of : (ns : List Node) → values (table_of ns) ≡ ns
unfolding table_of
values-table_of [] = refl
values-table_of (n ∷ ns) = ap (λ l. n ∷ l) (values-table_of ns)

abbrev pub outlines : List Node → List Outline
outlines = map outline

-- The copies of a document with distinct ids are its nodes.
pub values-start_state :
    (document : PipelineDocument)
    → Distinct (node_ids document)
    → values (start_state document).nodes ≡ document.nodes
unfolding start_state lookup
values-start_state document distinct =
    ap values (nodes_by_id-table document.nodes [] distinct (λ v m. refl))
    ∙ values-table_of document.nodes

outlines-start_state :
    (document : PipelineDocument)
    → Distinct (node_ids document)
    → outlines (values (start_state document).nodes) ≡ outlines document.nodes
outlines-start_state document distinct = ap outlines (values-start_state document distinct)

-- What the two kinds of result promise.
abbrev pub Left : PipelineDocument → ReconcileResult → Type 0
Left document r =
    (r.ownership ≡ custom) × (r.document ≡ document) × (r.changed ≡ false) × (r.problems ≢ [])

abbrev pub Adopted : PipelineDocument → ReconcileResult → Type 0
Adopted document r =
    (r.ownership ≡ visual)
    × (r.problems ≡ [])
    × (r.document ≡ record document { nodes = r.document.nodes })
    × (outlines r.document.nodes ≡ outlines document.nodes)

abbrev Safe : PipelineDocument → Option ReconcileResult → Type 0
Safe document none = Unit
Safe document (some r) = Left document r ⊎ Adopted document r

conclude_with-Safe :
    (document : PipelineDocument) (source : List String) (problems : List ReconcileProblem)
    (state : State)
    → outlines (values state.nodes) ≡ outlines document.nodes
    → Safe document (some (conclude_with document source problems state))
unfolding conclude_with
conclude_with-Safe document source (p ∷ ps) state h = inl (refl, refl, refl, λ e. cc)
conclude_with-Safe document source [] state h = inr (refl, refl, refl, h)

refused-Safe :
    (document : PipelineDocument) (p : ReconcileProblem) (regions : List OwnershipRegion)
    → Safe document (some (refused document (p ∷ []) regions))
refused-Safe document p regions = inl (refl, refl, refl, λ e. cc)

Safe-if :
    (document : PipelineDocument) (b : Bool) (x y : Option ReconcileResult)
    → Safe document x
    → Safe document y
    → Safe document (if b then x else y)
Safe-if document true x y h g = h
Safe-if document false x y h g = g

finish-Safe :
    (document : PipelineDocument) (source : List String) (start : State) (o : Option State)
    → outlines (values start.nodes) ≡ outlines document.nodes
    → Keeps start o
    → Safe document (o >>= λ state. some (conclude document source state))
unfolding conclude
finish-Safe document source start none h kept = tt
finish-Safe document source start (some state) h kept =
    conclude_with-Safe document source state.problems state
      (outlines_of_entries state.nodes start.nodes kept ∙ h)

reconcile_python-Safe :
    (document : PipelineDocument) (source : List String) (parsed : Parsed)
    → Distinct (node_ids document)
    → Safe document (reconcile_python document source parsed)
unfolding reconcile_python
reconcile_python-Safe document source (syntax_error lineno) distinct =
    refused-Safe document _ (one_line (line_or_one lineno))
reconcile_python-Safe document source (module_of functions) distinct =
    let outputs = keep is_output_function functions in
    let start = start_state document in
    let left = refused-Safe document (no_line "SDPS-RECON-002") (whole_text (length source)) in
    Safe-if document (eqb (length outputs) 0 && has_text source) _ _ left (
      Safe-if document (not (eqb (length outputs) (count is_generated document.nodes))) _ _ left (
        finish-Safe document source start (read_functions (values start.nodes) outputs start)
          (outlines-start_state document distinct)
          (Keeps-read_functions (values start.nodes) outputs start)))

-- If the node ids of a document are distinct, a result of the reconciliation leaves the code as
-- custom, with a problem, and the document as it was and marked unchanged; or it has no problem and
-- owns the code, and its document has the nodes of the document in their order, with their ids,
-- types and versions, and all else of the document, so that only configurations may differ.
pub reconcile_python-safe :
    (document : PipelineDocument) (source : List String) (parsed : Parsed) (r : ReconcileResult)
    → Distinct (node_ids document)
    → reconcile_python document source parsed ≡ some r
    → Left document r ⊎ Adopted document r
reconcile_python-safe document source parsed r distinct e =
    subst (Safe document) e (reconcile_python-Safe document source parsed distinct)
