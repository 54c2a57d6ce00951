-- ===== src/SafeExpression/Syntax.antt =====
-- The part of Python's `ast` that python/sdpstudio_codegen/safe_expression.py reads: the classes that
-- it takes apart have a constructor, every other class is a `node` with its name and its children.
use sdp_studio.Prelude.{String, Bool, List, [], ◌∷◌}

pub data Literal : Type 0 where
  text number bytes : String → Literal
  boolean : Bool → Literal
  null ellipsis : Literal

mutual
  -- `ctx` and `op` are the class names of the contexts and the operators.
  pub data Ast : Type 0 where
    constant : Literal → Ast
    name : (id ctx : String) → Ast
    attribute : (value : Ast) (attr ctx : String) → Ast
    call : (func : Ast) (args keywords : Asts) → Ast
    bin_op : (left : Ast) (op : String) (right : Ast) → Ast
    node : (class : String) (fields : Asts) → Ast

  pub data Asts : Type 0 where
    end : Asts
    item : Ast → Asts → Asts

-- `type(node).__name__`
abbrev pub class_name : Ast → String
class_name (constant c) = "Constant"
class_name (name id ctx) = "Name"
class_name (attribute value attr ctx) = "Attribute"
class_name (call func args keywords) = "Call"
class_name (bin_op left op right) = "BinOp"
class_name (node class fields) = class

-- The items, followed by further ones.
abbrev pub items : Asts → List Ast → List Ast
items end rest = rest
items (item a others) rest = a ∷ items others rest

-- `ast.iter_child_nodes(node)`
abbrev pub children : Ast → List Ast
children (constant c) = []
children (name id ctx) = node ctx end ∷ []
children (attribute value attr ctx) = value ∷ node ctx end ∷ []
children (call func args keywords) = func ∷ items args (items keywords [])
children (bin_op left op right) = left ∷ node op end ∷ right ∷ []
children (node class fields) = items fields []
