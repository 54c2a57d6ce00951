-- ===== src/Ir/Freeze.antt =====
-- `_freeze` and `_thaw` of python/sdpstudio_core/ir.py: configurations as tuples that cannot change,
-- the keys of each dict in order.
use sdp_studio.Prelude.{
  ℕ, zero, suc, String, ◌≡◌, refl, ap, ◌∙◌, inl, inr, true, Option-cases, Bool, Option, none, some,
  List, [], ◌∷◌, arith, ◌==◌, eq_iff, if◌then◌else◌,
}
use sdp_studio.Prelude.Int.{ℤ}
use sdp_studio.Prelude.Sort.{le_text}
use sdp_studio.Json.{
  Json, Items, Fields, null, bool, num, str, list, dict, nil, cons, end, field, get,
}

-- `list_tuple vs` is `("__list__", (...))`, and `dict_tuple d` is `("__dict__", ((key, ...), ...))`.
mutual
  pub data Frozen : Type 0 where
    null_value : Frozen
    bool_value : Bool → Frozen
    num_value : ℤ → ℕ → Frozen
    str_value : String → Frozen
    list_tuple : FrozenItems → Frozen
    dict_tuple : FrozenFields → Frozen

  pub data FrozenItems : Type 0 where
    none_left : FrozenItems
    item : Frozen → FrozenItems → FrozenItems

  pub data FrozenFields : Type 0 where
    closed : FrozenFields
    entry : String → Frozen → FrozenFields → FrozenFields

-- The place of an entry among entries that are sorted by key.
unfoldable pub place_entry : String → Frozen → FrozenFields → FrozenFields
place_entry k v closed = entry k v closed
place_entry k v (entry j w d) =
    if le_text k j then entry k v (entry j w d) else entry j w (place_entry k v d)

unfoldable mutual
  pub freeze : Json → Frozen
  freeze null = null_value
  freeze (bool b) = bool_value b
  freeze (num m s) = num_value m s
  freeze (str s) = str_value s
  freeze (list vs) = list_tuple (freeze_items vs)
  freeze (dict d) = dict_tuple (freeze_fields d)

  pub freeze_items : Items → FrozenItems
  freeze_items nil = none_left
  freeze_items (cons v vs) = item (freeze v) (freeze_items vs)

  pub freeze_fields : Fields → FrozenFields
  freeze_fields end = closed
  freeze_fields (field k v d) = place_entry k (freeze v) (freeze_fields d)

unfoldable mutual
  pub thaw : Frozen → Json
  thaw null_value = null
  thaw (bool_value b) = bool b
  thaw (num_value m s) = num m s
  thaw (str_value s) = str s
  thaw (list_tuple vs) = list (thaw_items vs)
  thaw (dict_tuple d) = dict (thaw_fields d)

  pub thaw_items : FrozenItems → Items
  thaw_items none_left = nil
  thaw_items (item v vs) = cons (thaw v) (thaw_items vs)

  pub thaw_fields : FrozenFields → Fields
  thaw_fields closed = end
  thaw_fields (entry k v d) = field k (thaw v) (thaw_fields d)

-- One step into a value: a key of a dict, or a place of a list.
pub data Step : Type 0 where
  key : String → Step
  at : ℕ → Step

-- What stands at the end of a path, without what is below it.
pub data Shape : Type 0 where
  leaf : Json → Shape
  list_of dict_of : ℕ → Shape

abbrev size_items : Items → ℕ
size_items nil = 0
size_items (cons v vs) = suc (size_items vs)

abbrev size_fields : Fields → ℕ
size_fields end = 0
size_fields (field k v d) = suc (size_fields d)

abbrev shape : Json → Shape
shape (list vs) = list_of (size_items vs)
shape (dict d) = dict_of (size_fields d)
shape v = leaf v

unfoldable nth : ℕ → Items → Option Json
nth n nil = none
nth zero (cons v vs) = some v
nth (suc n) (cons v vs) = nth n vs

step : Step → Json → Option Json
step (key k) (dict d) = get k d
step (at n) (list vs) = nth n vs
step _ v = none

-- What a path of keys and places leads to, if it leads to anything.
unfoldable pub look : List Step → Json → Option Shape
unfolding nth step
look [] v = some (shape v)
look (s ∷ path) v = elim (step s v) [ none ↦ none | some w ↦ look path w ]

le_text-of_eq : (a b : String) → a == b ≡ true → le_text a b ≡ true
le_text-of_eq a b h = ground arith

get-place_entry :
    (j k : String) (v : Frozen) (d : FrozenFields)
    → get k (thaw_fields (place_entry j v d))
      ≡ (if j == k then some (thaw v) else get k (thaw_fields d))
unfolding place_entry thaw_fields get
get-place_entry j k v closed = refl
get-place_entry j k v (entry i w d) =
    ground (arith, eq_iff j k, eq_iff i k, eq_iff j i, le_text-of_eq j i, get-place_entry j k v d)

size-place_entry :
    (j : String) (v : Frozen) (d : FrozenFields)
    → size_fields (thaw_fields (place_entry j v d)) ≡ suc (size_fields (thaw_fields d))
unfolding place_entry thaw_fields
size-place_entry j v closed = refl
size-place_entry j v (entry i w d) = ground (arith, size-place_entry j v d)

-- What freezing and thawing makes of an option.
abbrev thawed : Option Json → Option Json
thawed none = none
thawed (some v) = some (thaw (freeze v))

get-thaw_fields :
    (k : String) (d : Fields) → get k (thaw_fields (freeze_fields d)) ≡ thawed (get k d)
unfolding freeze_fields thaw_fields get
get-thaw_fields k end = refl
get-thaw_fields k (field j v d) =
    ground (arith, get-place_entry j k (freeze v) (freeze_fields d), get-thaw_fields k d)

nth-thaw_items : (n : ℕ) (vs : Items) → nth n (thaw_items (freeze_items vs)) ≡ thawed (nth n vs)
unfolding freeze_items thaw_items nth
nth-thaw_items n nil = refl
nth-thaw_items zero (cons v vs) = refl
nth-thaw_items (suc n) (cons v vs) = nth-thaw_items n vs

size-thaw_fields : (d : Fields) → size_fields (thaw_fields (freeze_fields d)) ≡ size_fields d
unfolding freeze_fields thaw_fields
size-thaw_fields end = refl
size-thaw_fields (field k v d) =
    size-place_entry k (freeze v) (freeze_fields d) ∙ ap suc (size-thaw_fields d)

size-thaw_items : (vs : Items) → size_items (thaw_items (freeze_items vs)) ≡ size_items vs
unfolding freeze_items thaw_items
size-thaw_items nil = refl
size-thaw_items (cons v vs) = ap suc (size-thaw_items vs)

shape-thaw : (v : Json) → shape (thaw (freeze v)) ≡ shape v
unfolding freeze thaw
shape-thaw null = refl
shape-thaw (bool b) = refl
shape-thaw (num m s) = refl
shape-thaw (str s) = refl
shape-thaw (list vs) = ap list_of (size-thaw_items vs)
shape-thaw (dict d) = ap dict_of (size-thaw_fields d)

step-thaw : (s : Step) (v : Json) → step s (thaw (freeze v)) ≡ thawed (step s v)
unfolding step freeze thaw
step-thaw (key k) (dict d) = get-thaw_fields k d
step-thaw (at n) (list vs) = nth-thaw_items n vs
step-thaw (key k) null = refl
step-thaw (key k) (bool b) = refl
step-thaw (key k) (num m s) = refl
step-thaw (key k) (str s) = refl
step-thaw (key k) (list vs) = refl
step-thaw (at n) null = refl
step-thaw (at n) (bool b) = refl
step-thaw (at n) (num m s) = refl
step-thaw (at n) (str s) = refl
step-thaw (at n) (dict d) = refl

-- A configuration that is frozen and thawed again has the same content: every path of keys and
-- places leads to the same scalar, to a list of the same length or to a dict of the same size, or
-- to nothing in both.
pub thaw-freeze : (path : List Step) (v : Json) → look path (thaw (freeze v)) ≡ look path v
unfolding look
thaw-freeze [] v = ap some (shape-thaw v)
thaw-freeze (s ∷ path) v = elim (Option-cases (step s v)) [
  | inl e ↦ rw (step-thaw s v, e, look) refl
  | inr (w, e) ↦ rw (step-thaw s v, e, look) (thaw-freeze path w)
]
