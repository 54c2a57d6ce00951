-- ===== src/Reconcile/Syntax.antt =====
-- The part of Python's `ast` that python/sdpstudio_codegen/reconcile.py takes apart. A constant that
-- is neither a text nor a whole number or Boolean, and every class that the code tests for by no
-- name, is an `other`. An argument with a star is an `other` too.
use sdp_studio.Prelude.{ℕ, String, Bool, List, [], ◌∷◌, Option}

pub data Constant : Type 0 where
  text : String → Constant
  whole : ℕ → Constant
  truth : Bool → Constant
  other_constant : Constant

mutual
  pub data Expr : Type 0 where
    constant : Constant → Expr
    name : String → Expr
    attribute : (value : Expr) (attr : String) → Expr
    call : (func : Expr) (args : Exprs) (keywords : Keywords) → Expr
    list_of tuple_of : Exprs → Expr
    other : Expr

  pub data Exprs : Type 0 where
    end : Exprs
    item : Expr → Exprs → Exprs

  -- `arg=value`, where `**value` has no name
  pub data Keywords : Type 0 where
    no_more : Keywords
    keyword : Option String → Expr → Keywords → Keywords

abbrev pub exprs : Exprs → List Expr
exprs end = []
exprs (item e es) = e ∷ exprs es

pub data Form : Type 0 where
  expression : Expr → Form
  assign : (targets : List Expr) (value : Expr) → Form
  returns other_statement : Form

pub record Statement : Type 0 where
  pub lineno : ℕ
  pub end_lineno : ℕ
  pub form : Form

pub record Decorator : Type 0 where
  pub lineno : ℕ
  pub form : Expr

pub record FunctionDef : Type 0 where
  pub name : String
  pub decorator_list : List Decorator
  pub body : List Statement

-- The functions at the top level of a module, or the line at which parsing stops.
pub data Parsed : Type 0 where
  syntax_error : Option ℕ → Parsed
  module_of : List FunctionDef → Parsed
