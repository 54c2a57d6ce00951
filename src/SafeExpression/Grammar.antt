-- ===== src/SafeExpression/Grammar.antt =====
-- The expressions that the policy means to allow, as a grammar.
use sdp_studio.Prelude.{String, ◌≡◌, true, false, Memᴰ, ◌⊎◌}
use sdp_studio.SafeExpression.{
  Kind, dataframe, column, is_function, is_dataframe_method, is_column_method, is_allowed_node,
  is_filter, is_private, is_concat,
}
use sdp_studio.SafeExpression.Syntax.{
  Literal, text, Ast, Asts, constant, name, attribute, call, bin_op, node, end, item, children,
}

-- A text, or texts put together by `+` and `%`.
pub data IsText : Ast → Type 0 where
  plain : {s : String} → IsText (constant (text s))
  joined :
      {left : Ast} {op : String} {right : Ast}
      → is_concat op ≡ true
      → IsText left
      → IsText right
      → IsText (bin_op left op right)

-- What a dataframe method may take: `filter` and `where` one predicate that is no text.
pub data IsArguments (attr : String) : Asts → Asts → Type 0 where
  free : {args keywords : Asts} → is_filter attr ≡ false → IsArguments attr args keywords
  one_column :
      {arg : Ast} → is_filter attr ≡ true → ¬ IsText arg → IsArguments attr (item arg end) end

-- Chains of calls that start at `F` or at `df`.
pub data IsCall : Kind → Ast → Asts → Asts → Type 0 where
  on_functions :
      {id attr c ctx : String} {args keywords : Asts}
      → id ≡ "F"
      → is_function attr ≡ true
      → IsCall column (attribute (name id c) attr ctx) args keywords
  on_dataframe :
      {id attr c ctx : String} {args keywords : Asts}
      → id ≡ "df"
      → is_dataframe_method attr ≡ true
      → IsArguments attr args keywords
      → IsCall dataframe (attribute (name id c) attr ctx) args keywords
  then_column :
      {func : Ast} {inner others args keywords : Asts} {attr ctx : String}
      → IsCall column func inner others
      → is_column_method attr ≡ true
      → IsCall column (attribute (call func inner others) attr ctx) args keywords
  then_dataframe :
      {func : Ast} {inner others args keywords : Asts} {attr ctx : String}
      → IsCall dataframe func inner others
      → is_dataframe_method attr ≡ true
      → IsArguments attr args keywords
      → IsCall dataframe (attribute (call func inner others) attr ctx) args keywords

-- What one node must be, besides its class.
pub data IsPermitted : Ast → Type 0 where
  literal : {c : Literal} → IsPermitted (constant c)
  known : {id ctx : String} → (id ≡ "df") ⊎ (id ≡ "F") → IsPermitted (name id ctx)
  public_ :
      {v : Ast} {attr ctx : String} → is_private attr ≡ false → IsPermitted (attribute v attr ctx)
  chain :
      {k : Kind} {func : Ast} {args keywords : Asts}
      → IsCall k func args keywords
      → IsPermitted (call func args keywords)
  operation : {left : Ast} {op : String} {right : Ast} → IsPermitted (bin_op left op right)
  plain_node : {class : String} {fields : Asts} → IsPermitted (node class fields)

pub record IsAllowed (n : Ast) : Type 0 where
  pub class : is_allowed_node n ≡ true
  pub permitted : IsPermitted n

-- `x` is the tree or stands in it.
pub data Within (x : Ast) : Ast → Type 0 where
  here : {t : Ast} → x ≡ t → Within x t
  below : {c t : Ast} → Memᴰ c (children t) → Within x c → Within x t
