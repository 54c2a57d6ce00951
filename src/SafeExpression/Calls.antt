-- ===== src/SafeExpression/Calls.antt =====
-- `_call_kind` returns a kind for exactly the chains of the grammar.
use sdp_studio.Prelude.{
  String, ◌≡◌, refl, ◌↔◌, inl, inr, Bool, Bool-cases, true, false, not, ◌&&◌, List, contains, all,
  mem_of_any, true_of_all, if◌then◌else◌, subst, ap, sym, arith, ◌==◌, eq_iff,
}
use sdp_studio.SafeExpression.{
  Kind, dataframe, column, CallKind, returns, raises, Refusal, is_function, is_dataframe_method,
  is_column_method, is_private, validate_dataframe_call, named_call, chained, call_kind,
  dataframe_unless, not_public_api, spark_function, not_allowed_call,
}
use sdp_studio.SafeExpression.Allowed.{
  allowed_dataframe_methods, allowed_column_methods, allowed_functions,
}
use sdp_studio.SafeExpression.Syntax.{Ast, Asts, constant, name, attribute, call, bin_op, node}
use sdp_studio.SafeExpression.Grammar.{
  IsCall, on_functions, on_dataframe, then_column, then_dataframe,
}
use sdp_studio.SafeExpression.Arguments.{IsArguments-of, of_arguments, dataframe_unless-returns}

-- No allow-list has a private name.
is_private-of :
    (names : List String) (attr : String)
    → all (λ n. not (is_private n)) names ≡ true
    → contains names attr ≡ true
    → is_private attr ≡ false
is_private-of names attr clean h =
    let (n, m, same) = mem_of_any (λ n. n == attr) names h in
    let is_n = (eq_iff n attr).0 same in
    let at_n = true_of_all (λ n. not (is_private n)) n names clean m in
    ground (arith, ap is_private is_n)

function_public : (attr : String) → is_function attr ≡ true → is_private attr ≡ false
unfolding is_function
function_public attr h = is_private-of allowed_functions attr (unfold is_private in refl) h

method_public : (attr : String) → is_dataframe_method attr ≡ true → is_private attr ≡ false
unfolding is_dataframe_method
method_public attr h = is_private-of allowed_dataframe_methods attr (unfold is_private in refl) h

column_public : (attr : String) → is_column_method attr ≡ true → is_private attr ≡ false
unfolding is_column_method
column_public attr h = is_private-of allowed_column_methods attr (unfold is_private in refl) h

-- A guard that raises.
guarded :
    (b : Bool) (x : CallKind) (r : Refusal) (k : Kind)
    → (if b then raises r else x) ≡ returns k
    → x ≡ returns k
guarded true x r k h = cc
guarded false x r k h = h

required :
    (b : Bool) (x : CallKind) (r : Refusal) (k : Kind)
    → (if b then x else raises r) ≡ returns k
    → (b ≡ true) × (x ≡ returns k)
required true x r k h = (refl, h)
required false x r k h = cc

both_true : (a b : Bool) → a && b ≡ true → (a ≡ true) × (b ≡ true)
both_true a b h = (ground arith, ground arith)

named_of :
    (id c attr ctx : String) (args keywords : Asts) (k : Kind)
    → named_call id attr args keywords ≡ returns k
    → IsCall k (attribute (name id c) attr ctx) args keywords
unfolding named_call
named_of id c attr ctx args keywords k h =
    let goal : Kind → Type 0 = λ j. IsCall j (attribute (name id c) attr ctx) args keywords in
    elim (Bool-cases (id == "F")) [
      | inl f ↦
          let (found, same) =
            required (is_function attr) (returns column) (spark_function attr) k (rw f at h) in
          subst goal (cc) (on_functions ((eq_iff id "F").0 f) found)
      | inr off ↦
          let (both, same) =
            required (id == "df" && is_dataframe_method attr)
              (dataframe_unless (validate_dataframe_call attr args keywords))
              (not_allowed_call id attr) k (rw off at h) in
          let (is_df, found) = both_true (id == "df") (is_dataframe_method attr) both in
          let (is_frame, valid) =
            dataframe_unless-returns (validate_dataframe_call attr args keywords) k same in
          subst goal (sym is_frame) (
            on_dataframe ((eq_iff id "df").0 is_df) found (IsArguments-of attr args keywords valid))
    ]

chained_of :
    (func : Ast) (inner others : Asts) (attr ctx : String) (args keywords : Asts) (k j : Kind)
    → IsCall j func inner others
    → chained (returns j) attr args keywords ≡ returns k
    → IsCall k (attribute (call func inner others) attr ctx) args keywords
unfolding chained
chained_of func inner others attr ctx args keywords k column parent h =
    elim (Bool-cases (is_column_method attr)) [
      | inl found ↦
          subst (λ i. IsCall i (attribute (call func inner others) attr ctx) args keywords)
            (ground arith) (then_column parent found)
      | inr missing ↦ ground arith
    ]
chained_of func inner others attr ctx args keywords k dataframe parent h =
    elim (Bool-cases (is_dataframe_method attr)) [
      | inl found ↦
          let (is_frame, valid) =
            dataframe_unless-returns (validate_dataframe_call attr args keywords) k
              (ground arith) in
          subst (λ i. IsCall i (attribute (call func inner others) attr ctx) args keywords)
            (sym is_frame) (then_dataframe parent found (IsArguments-of attr args keywords valid))
      | inr missing ↦ ground arith
    ]

frame_not_functions : (id : String) → id ≡ "df" → (id == "F") ≡ false
frame_not_functions id d = ap (λ s. s == "F") d

-- What a call on a call is, once the call inside is known.
raises_no :
    {A : Type 0} (attr : String) (args keywords : Asts) (x : Refusal) (k : Kind)
    → chained (raises x) attr args keywords ≡ returns k
    → A
unfolding chained
raises_no attr args keywords x k h = cc

nested :
    (func : Ast) (inner others : Asts) (attr ctx : String) (args keywords : Asts) (k : Kind)
    (r : CallKind)
    → ((j : Kind) → r ≡ returns j → IsCall j func inner others)
    → chained r attr args keywords ≡ returns k
    → IsCall k (attribute (call func inner others) attr ctx) args keywords
nested func inner others attr ctx args keywords k (returns j) parent h =
    chained_of func inner others attr ctx args keywords k j (parent j refl) h
nested func inner others attr ctx args keywords k (raises x) parent h =
    raises_no attr args keywords x k h

IsCall-of :
    (func : Ast) (args keywords : Asts) (k : Kind)
    → call_kind func args keywords ≡ returns k
    → IsCall k func args keywords
unfolding call_kind
IsCall-of (attribute (name id c) attr ctx) args keywords k h =
    named_of id c attr ctx args keywords k
      (guarded (is_private attr) (named_call id attr args keywords) not_public_api k h)
IsCall-of (attribute (call f a o) attr ctx) args keywords k h =
    nested f a o attr ctx args keywords k (call_kind f a o) (IsCall-of f a o)
      (guarded (is_private attr) (chained (call_kind f a o) attr args keywords) not_public_api k h)
IsCall-of (attribute (constant c) attr ctx) args keywords k h = ground arith
IsCall-of (attribute (attribute v a c) attr ctx) args keywords k h = ground arith
IsCall-of (attribute (bin_op l o r) attr ctx) args keywords k h = ground arith
IsCall-of (attribute (node c fs) attr ctx) args keywords k h = ground arith
IsCall-of (constant c) args keywords k h = ground arith
IsCall-of (name id c) args keywords k h = ground arith
IsCall-of (call f a o) args keywords k h = ground arith
IsCall-of (bin_op l o r) args keywords k h = ground arith
IsCall-of (node c fs) args keywords k h = ground arith

of_call :
    (func : Ast) (args keywords : Asts) (k : Kind)
    → IsCall k func args keywords
    → call_kind func args keywords ≡ returns k
unfolding call_kind named_call chained
of_call (attribute (name id c) attr ctx) args keywords column (on_functions f found) =
    ground (arith, function_public attr found, (eq_iff id "F").1 f)
of_call (attribute (name id c) attr ctx) args keywords dataframe (on_dataframe d found valid) =
    ground (
      arith,
      method_public attr found,
      (eq_iff id "df").1 d,
      frame_not_functions id d,
      of_arguments attr args keywords valid,
    )
of_call (attribute (call f a o) attr ctx) args keywords column (then_column parent found) =
    ground (arith, column_public attr found, of_call f a o column parent)
of_call (attribute (call f a o) attr ctx) args keywords dataframe
      (then_dataframe parent found valid) =
    ground (
      arith,
      method_public attr found,
      of_call f a o dataframe parent,
      of_arguments attr args keywords valid,
    )
of_call (attribute (constant c) attr ctx) args keywords k x = elim x [ ]
of_call (attribute (attribute v a c) attr ctx) args keywords k x = elim x [ ]
of_call (attribute (bin_op l o r) attr ctx) args keywords k x = elim x [ ]
of_call (attribute (node c fs) attr ctx) args keywords k x = elim x [ ]
of_call (constant c) args keywords k x = elim x [ ]
of_call (name id c) args keywords k x = elim x [ ]
of_call (call f a o) args keywords k x = elim x [ ]
of_call (bin_op l o r) args keywords k x = elim x [ ]
of_call (node c fs) args keywords k x = elim x [ ]

-- `_call_kind` returns a kind exactly for the chains of that kind.
pub call_kind_exact :
    (func : Ast) (args keywords : Asts) (k : Kind)
    → (call_kind func args keywords ≡ returns k) ↔ IsCall k func args keywords
call_kind_exact func args keywords k =
    (IsCall-of func args keywords k, of_call func args keywords k)
