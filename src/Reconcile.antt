-- ===== src/Reconcile.antt =====
-- python/sdpstudio_codegen/reconcile.py: edited code that is read back into the document. The text of
-- a module is what Python's parser and `splitlines` make of it; the copies of the nodes stand in a
-- table under their ids, so that what one name writes another reads.
pub mod Syntax
pub mod Edits
pub mod Region
pub mod Equality
pub mod Markers
pub mod Copies
pub mod Decorators
pub mod Statements
pub mod Variables
pub mod Keeps
pub mod Safe
pub mod Acceptable
pub mod Accepted
use Prim.Native.Char.{code}
use package.text.Mathlib.Text.{starts_with}
use sdp_studio.Prelude.{
  ℕ, zero, suc, ◌+◌, ◌*◌, ◌^◌, String, Bool, true, false, List, [], ◌∷◌, ◌++◌, map, length, any,
  keep, count, contains, Option, none, some, not, ◌&&◌, ◌||◌, eqb, ◌==◌, if◌then◌else◌,
}
use sdp_studio.Prelude.Dict.{Dict, lookup, insert}
use sdp_studio.Json.{Json, Items, Fields, get}
use sdp_studio.Models.{Node, PipelineDocument}
use sdp_studio.Graph.Index.{nodes_by_id}
use sdp_studio.Reconcile.Region.{Ownership, visual, custom, OwnershipRegion}
use sdp_studio.Reconcile.Syntax.{
  text, Expr, constant, name, attribute, call, list_of, tuple_of, Keywords, no_more, keyword, exprs,
  Form, expression, assign, returns, other_statement, Statement, Decorator, FunctionDef, Parsed,
  syntax_error, module_of,
}
use sdp_studio.Reconcile.Equality.{same_nodes}
use sdp_studio.Reconcile.Markers.{parse_ownership_markers}
use sdp_studio.Prelude.Text.{strip}
use sdp_studio.Reconcile.Edits.{
  Edit, supported, bad_filter, ignored, raises, set_field, update, texts_list, text_of, first_of,
  text_first, all_texts, edit_of,
}
use sdp_studio.Reconcile.Copies.{
  ReconcileProblem, problem, variable_of, node_for, is_named, find_named, State, write_config,
  write_if,
}
use sdp_studio.Reconcile.Statements.{◌>>=◌, read_functions}

pub record ReconcileResult : Type 0 where
  pub document : PipelineDocument
  pub changed : Bool
  pub ownership : Ownership
  pub problems : List ReconcileProblem
  pub regions : List OwnershipRegion

-- `@dp....(...)`
unfoldable pub is_declaration : Expr → Bool
is_declaration (call (attribute (name owner) _) _ _) = owner == "dp"
is_declaration _ = false

unfoldable pub is_output_function : FunctionDef → Bool
unfolding is_declaration
is_output_function f = any (λ d. is_declaration d.form) f.decorator_list

unfoldable pub is_generated : Node → Bool
is_generated node = starts_with node.type "dataset." || node.type == "sink.external"

-- The result that leaves the document as it is.
abbrev pub refused :
    PipelineDocument → List ReconcileProblem → List OwnershipRegion → ReconcileResult
refused document problems regions = record {
  document = document;
  changed = false;
  ownership = custom;
  problems = problems;
  regions = regions;
}

abbrev pub whole_text : ℕ → List OwnershipRegion
whole_text lines =
    record {
      start_line = 1;
      end_line = if eqb lines 0 then 1 else lines;
      ownership = custom;
      node_id = none;
    }
    ∷ []

-- `exc.lineno or 1`
abbrev pub line_or_one : Option ℕ → ℕ
line_or_one none = 1
line_or_one (some n) = if eqb n 0 then 1 else n

abbrev pub one_line : ℕ → List OwnershipRegion
one_line n = record { start_line = n; end_line = n; ownership = custom; node_id = none } ∷ []

-- `source.strip()` is not empty.
unfoldable pub has_text : List String → Bool
unfolding strip
has_text lines = any (λ line. not (strip line == "")) lines

abbrev pub no_line : String → ReconcileProblem
no_line code = record { code = code; line = none }

abbrev pub values {ℓ} : {A : Type ℓ} → Dict A → List A
values [] = []
values ((k, v) ∷ d) = v ∷ values d

or_regions : List OwnershipRegion → List OwnershipRegion → List OwnershipRegion
or_regions [] regions = regions
or_regions (r ∷ rs) regions = r ∷ rs

unfoldable pub conclude_with :
    PipelineDocument → List String → List ReconcileProblem → State → ReconcileResult
unfolding or_regions same_nodes parse_ownership_markers
conclude_with document source (p ∷ ps) state = refused document (p ∷ ps) state.regions
conclude_with document source [] state = record {
  document = record document { nodes = values state.nodes };
  changed = not (same_nodes (values state.nodes) document.nodes);
  ownership = visual;
  problems = [];
  regions = or_regions (parse_ownership_markers source) state.regions;
}

-- The end of the function: with a problem the document stays as it is.
unfoldable pub conclude : PipelineDocument → List String → State → ReconcileResult
unfolding conclude_with
conclude document source state = conclude_with document source state.problems state

unfoldable pub start_state : PipelineDocument → State
unfolding nodes_by_id
start_state document = record { nodes = nodes_by_id document.nodes []; problems = []; regions = [] }

-- The lines of the code and what the parser makes of it. There is no result where `dict` raises on
-- the mapping of a renaming that is no mapping.
unfoldable pub reconcile_python : PipelineDocument → List String → Parsed → Option ReconcileResult
unfolding is_output_function is_generated has_text start_state read_functions conclude
reconcile_python document source (syntax_error lineno) = some (
    refused document (record { code = "SDPS-RECON-001"; line = lineno } ∷ [])
      (one_line (line_or_one lineno)))
reconcile_python document source (module_of functions) =
    let outputs = keep is_output_function functions in
    if eqb (length outputs) 0 && has_text source
    then some (refused document (no_line "SDPS-RECON-002" ∷ []) (whole_text (length source)))
    else if not (eqb (length outputs) (count is_generated document.nodes))
    then some (refused document (no_line "SDPS-RECON-002" ∷ []) (whole_text (length source)))
    else (read_functions (values (start_state document).nodes) outputs (start_state document)
        >>= λ state. some (conclude document source state))
