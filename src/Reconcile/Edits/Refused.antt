-- ===== src/Reconcile/Edits/Refused.antt =====
-- Which assignments are refused as edits: a filter on a call that is not `F.expr("...")`, and no other.
use sdp_studio.Prelude.{
  String, ◌≡◌, refl, sym, inl, inr, Bool, true, false, ◌&&◌, not, List, [], ◌∷◌, Option, none, some,
  is_some, Bool-cases, ◌==◌, eq_iff, if◌then◌else◌, arith, subst,
}
use sdp_studio.Json.{Json, Fields, get}
use sdp_studio.Reconcile.Syntax.{Expr, exprs}
use sdp_studio.Reconcile.Edits.{
  Edit, supported, bad_filter, ignored, raises, write_text, write_columns, edit_with_column, rename,
  edit_renamed, edit_cast, edit_distinct, edit_limit, edit_filter, deduplicate, edit_deduplicate,
  edit_of, text_called, text_first, all_texts, all_columns, values_of,
}

abbrev pub is_bad : Edit → Bool
is_bad bad_filter = true
is_bad (supported _) = false
is_bad ignored = false
is_bad raises = false

-- A filter on a call that is not `F.expr("...")`.
abbrev pub is_foreign_filter : List Expr → Bool
is_foreign_filter (Expr.call f args keywords ∷ _) =
    not (is_some (text_called "expr" (Expr.call f args keywords)))
is_foreign_filter _ = false

is_bad-write_text : (key : String) (o : Option String) → is_bad (write_text key o) ≡ false
is_bad-write_text key none = refl
is_bad-write_text key (some s) = refl

is_bad-write_columns : (o : Option (List String)) → is_bad (write_columns o) ≡ false
is_bad-write_columns none = refl
is_bad-write_columns (some []) = refl
is_bad-write_columns (some (s ∷ ss)) = refl

is_bad-with_column : (args : List Expr) → is_bad (edit_with_column args) ≡ false
unfolding edit_with_column
is_bad-with_column args = ground arith

is_bad-rename : (o : Option Json) (old new : String) → is_bad (rename o old new) ≡ false
unfolding rename
is_bad-rename none old new = refl
is_bad-rename (some (Json.dict d)) old new = refl
is_bad-rename (some Json.null) old new = refl
is_bad-rename (some (Json.bool b)) old new = ground arith
is_bad-rename (some (Json.num m n)) old new = ground arith
is_bad-rename (some (Json.str s)) old new = ground arith
is_bad-rename (some (Json.list vs)) old new = ground arith

is_bad-cast : (column : Expr) (args : List Expr) → is_bad (edit_cast column args) ≡ false
unfolding edit_cast
is_bad-cast column args = ground arith

is_bad-distinct : (args : List Expr) → is_bad (edit_distinct args) ≡ false
unfolding edit_distinct
is_bad-distinct [] = refl
is_bad-distinct (e ∷ es) = refl

is_bad-filter : (args : List Expr) → is_bad (edit_filter args) ≡ is_foreign_filter args
unfolding edit_filter
is_bad-filter args = ground arith

is_bad-deduplicate :
    (o : Option (List String)) (args : List Expr) → is_bad (deduplicate o args) ≡ false
unfolding deduplicate
is_bad-deduplicate o args = ground arith

is_bad-renamed : (config : Fields) (args : List Expr) → is_bad (edit_renamed config args) ≡ false
unfolding edit_renamed
is_bad-renamed config args = ground (arith, is_bad-rename (get "mapping" config))

is_bad-limit : (args : List Expr) → is_bad (edit_limit args) ≡ false
unfolding edit_limit
is_bad-limit args = ground arith

is_bad-if :
    (b : Bool) (x y : Edit)
    → is_bad x ≡ false
    → is_bad y ≡ false
    → is_bad (if b then x else y) ≡ false
is_bad-if true x y h g = h
is_bad-if false x y h g = g

is_bad-drop_duplicates :
    (receiver : Expr) (args : List Expr) → is_bad (edit_deduplicate receiver args) ≡ false
unfolding edit_deduplicate
is_bad-drop_duplicates (Expr.call (Expr.attribute owner attr) marks keywords) args =
    is_bad-if (attr == "withWatermark") _ _ (is_bad-deduplicate (all_texts (exprs marks)) args) refl
is_bad-drop_duplicates (Expr.call _ marks keywords) args = refl
is_bad-drop_duplicates _ args = is_bad-write_columns (all_columns (values_of args))

-- The verdict does not depend on the configuration, nor on what the method is called on.
pub is_bad-edit_of :
    (attr : String) (receiver : Expr) (args : List Expr) (config : Fields)
    → is_bad (edit_of attr receiver args config) ≡ attr == "filter" && is_foreign_filter args
unfolding edit_of
is_bad-edit_of attr receiver args config = elim (Bool-cases (attr == "filter")) [
  | inl filter ↦
      subst (λ a. is_bad (edit_of a receiver args config) ≡ a == "filter" && is_foreign_filter args)
        (sym ((eq_iff attr "filter").0 filter)) (is_bad-filter args)
  | inr off ↦ rw off (
      is_bad-if (attr == "table") _ _ (is_bad-write_text "table" (text_first args)) (
        is_bad-if (attr == "withColumn") _ _ (is_bad-with_column args) (
          is_bad-if (attr == "withColumnRenamed") _ _ (is_bad-renamed config args) (
            is_bad-if (attr == "cast") _ _ (is_bad-cast receiver args) (
              is_bad-if (attr == "distinct") _ _ (is_bad-distinct args) (
                is_bad-if (attr == "drop") _ _ (is_bad-write_columns (all_texts args)) (
                  is_bad-if (attr == "limit") _ _ (is_bad-limit args) (
                    is_bad-if (attr == "dropDuplicates") _ _ (is_bad-drop_duplicates receiver args)
                      (is_bad-if (attr == "select") _ _
                        (is_bad-write_columns (all_columns (values_of args))) refl)))))))))
]
