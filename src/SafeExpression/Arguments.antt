-- ===== src/SafeExpression/Arguments.antt =====
-- The arguments of `filter` and `where`: one predicate that is no text.
use sdp_studio.Prelude.{String, ◌≡◌, refl, inl, inr, Bool-cases, true, Option, none, some, arith}
use sdp_studio.SafeExpression.{
  Kind, dataframe, returns, Refusal, is_filter, is_python_string_expression, predicate,
  validate_dataframe_call, dataframe_unless,
}
use sdp_studio.SafeExpression.Syntax.{
  text, number, bytes, boolean, null, ellipsis, Ast, Asts, constant, name, attribute, call, bin_op,
  node, end, item,
}
use sdp_studio.SafeExpression.Grammar.{IsText, plain, joined, IsArguments, free, one_column}

IsText-of : (a : Ast) → is_python_string_expression a ≡ true → IsText a
unfolding is_python_string_expression
IsText-of (constant (text s)) h = plain
IsText-of (constant (number s)) h = cc
IsText-of (constant (bytes s)) h = cc
IsText-of (constant (boolean b)) h = cc
IsText-of (constant null) h = cc
IsText-of (constant ellipsis) h = cc
IsText-of (name id ctx) h = cc
IsText-of (attribute v attr ctx) h = cc
IsText-of (call f a k) h = cc
IsText-of (node c fs) h = cc
IsText-of (bin_op l op r) h =
    joined (ground arith) (IsText-of l (ground arith)) (IsText-of r (ground arith))

pub of_text : (a : Ast) → IsText a → is_python_string_expression a ≡ true
unfolding is_python_string_expression
of_text (constant (text s)) plain = refl
of_text (constant (number s)) t = elim t [ ]
of_text (constant (bytes s)) t = elim t [ ]
of_text (constant (boolean b)) t = elim t [ ]
of_text (constant null) t = elim t [ ]
of_text (constant ellipsis) t = elim t [ ]
of_text (name id ctx) t = elim t [ ]
of_text (attribute v attr ctx) t = elim t [ ]
of_text (call f a k) t = elim t [ ]
of_text (node c fs) t = elim t [ ]
of_text (bin_op l op r) (joined h x y) = ground (arith, of_text l x, of_text r y)

pub IsArguments-of :
    (attr : String) (args keywords : Asts)
    → validate_dataframe_call attr args keywords ≡ none
    → IsArguments attr args keywords
unfolding validate_dataframe_call predicate
IsArguments-of attr (item arg end) end h = elim (Bool-cases (is_filter attr)) [
  | inl filters ↦ one_column filters (λ t. ground (arith, of_text arg t))
  | inr off ↦ free off
]
IsArguments-of attr end keywords h = free (ground arith)
IsArguments-of attr (item arg (item other args)) keywords h = free (ground arith)
IsArguments-of attr (item arg end) (item k ks) h = free (ground arith)

pub of_arguments :
    (attr : String) (args keywords : Asts)
    → IsArguments attr args keywords
    → validate_dataframe_call attr args keywords ≡ none
unfolding validate_dataframe_call predicate
of_arguments attr args keywords (free off) = ground arith
of_arguments attr (item arg end) end (one_column filters no_text) =
    elim (Bool-cases (is_python_string_expression arg)) [
      | inl t ↦ absurd (no_text (IsText-of arg t))
      | inr f ↦ ground arith
    ]

pub dataframe_unless-returns :
    (o : Option Refusal) (k : Kind) → dataframe_unless o ≡ returns k → (k ≡ dataframe) × (o ≡ none)
dataframe_unless-returns none k h = (cc, refl)
dataframe_unless-returns (some r) k h = cc
