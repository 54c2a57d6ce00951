-- ===== src/Ir/Refs.antt =====
-- `_collect_refs` of python/sdpstudio_core/ir.py: the parameters and secrets that a configuration
-- names. A Python set is a list to which only new members are added.
use sdp_studio.Prelude.{
  String, ◌≡◌, refl, Bool, true, false, List, [], ◌∷◌, ◌++◌, ◌&&◌, ◌||◌, any, contains,
  if◌then◌else◌, arith, ◌==◌, eq_iff,
}
use sdp_studio.Prelude.Text.{strip, after_prefix, has_prefix, remove_prefix}
use sdp_studio.Json.{Json, Items, Fields, null, bool, num, str, list, dict, nil, cons, end, field}

pub record Refs : Type 0 where
  pub parameters : List String
  pub secrets : List String

-- `names.add(x)`
unfoldable pub add : String → List String → List String
add x names = if contains names x then names else x ∷ names

-- The case of a text.
unfoldable pub note_ref : String → Refs → Refs
unfolding add
note_ref s refs =
    if has_prefix "secret://" s
    then record refs { secrets = add (strip (remove_prefix "secret://" s)) refs.secrets }
    else if has_prefix "parameter://" s
    then record refs { parameters = add (strip (remove_prefix "parameter://" s)) refs.parameters }
    else refs

unfoldable mutual
  pub collect_refs : Json → Refs → Refs
  collect_refs null refs = refs
  collect_refs (bool b) refs = refs
  collect_refs (num m s) refs = refs
  collect_refs (str s) refs = note_ref s refs
  collect_refs (list vs) refs = collect_items vs refs
  collect_refs (dict d) refs = collect_fields d refs

  pub collect_items : Items → Refs → Refs
  collect_items nil refs = refs
  collect_items (cons v vs) refs = collect_items vs (collect_refs v refs)

  pub collect_fields : Fields → Refs → Refs
  collect_fields end refs = refs
  collect_fields (field k v d) refs = collect_fields d (collect_refs v refs)

-- The texts that stand in a value, not counting the keys of dicts.
unfoldable mutual
  pub texts : Json → List String
  texts null = []
  texts (bool b) = []
  texts (num m s) = []
  texts (str s) = s ∷ []
  texts (list vs) = texts_items vs
  texts (dict d) = texts_fields d

  pub texts_items : Items → List String
  texts_items nil = []
  texts_items (cons v vs) = texts v ++ texts_items vs

  pub texts_fields : Fields → List String
  texts_fields end = []
  texts_fields (field k v d) = texts v ++ texts_fields d

-- A text is a reference of one scheme to a name.
unfoldable pub refers : String → String → String → Bool
refers scheme name s = has_prefix scheme s && strip (remove_prefix scheme s) == name

one_scheme : (s : String) → has_prefix "parameter://" s ≡ true → has_prefix "secret://" s ≡ false
unfolding has_prefix after_prefix
one_scheme String.[] h = refl
one_scheme (String.◌∷◌ c s) h = ground arith

contains-add :
    (x name : String) (names : List String)
    → contains (add x names) name ≡ x == name || contains names name
unfolding add
contains-add x name names = ground (arith, eq_iff x name)

pub parameters-note_ref :
    (s name : String) (refs : Refs)
    → contains (note_ref s refs).parameters name
      ≡ refers "parameter://" name s || contains refs.parameters name
unfolding note_ref refers
parameters-note_ref s name refs = ground (
  arith,
  one_scheme s,
  contains-add (strip (remove_prefix "parameter://" s)) name refs.parameters,
)

pub secrets-note_ref :
    (s name : String) (refs : Refs)
    → contains (note_ref s refs).secrets name
      ≡ refers "secret://" name s || contains refs.secrets name
unfolding note_ref refers
secrets-note_ref s name refs =
    ground (arith, contains-add (strip (remove_prefix "secret://" s)) name refs.secrets)

any-append : (p : String → Bool) (xs ys : List String) → any p (xs ++ ys) ≡ any p xs || any p ys
any-append p [] ys = refl
any-append p (x ∷ xs) ys = ground (arith, any-append p xs ys)

-- A view of the references that grows by one test on each text.
module _ (view : Refs → List String) (name : String) (p : String → Bool)
    (grows : (s : String) (refs : Refs)
      → contains (view (note_ref s refs)) name ≡ p s || contains (view refs) name) where
  mutual
    unfolding collect_refs texts

    pub contains-collect_refs :
        (v : Json) (refs : Refs)
        → contains (view (collect_refs v refs)) name ≡ any p (texts v) || contains (view refs) name
    contains-collect_refs null refs = refl
    contains-collect_refs (bool b) refs = refl
    contains-collect_refs (num m s) refs = refl
    contains-collect_refs (str s) refs = ground (arith, grows s refs)
    contains-collect_refs (list vs) refs = contains-collect_items vs refs
    contains-collect_refs (dict d) refs = contains-collect_fields d refs

    contains-collect_items :
        (vs : Items) (refs : Refs)
        → contains (view (collect_items vs refs)) name
          ≡ any p (texts_items vs) || contains (view refs) name
    contains-collect_items nil refs = refl
    contains-collect_items (cons v vs) refs = ground (
      arith,
      contains-collect_items vs (collect_refs v refs),
      contains-collect_refs v refs,
      any-append p (texts v) (texts_items vs),
    )

    pub contains-collect_fields :
        (d : Fields) (refs : Refs)
        → contains (view (collect_fields d refs)) name
          ≡ any p (texts_fields d) || contains (view refs) name
    contains-collect_fields end refs = refl
    contains-collect_fields (field k v d) refs = ground (
      arith,
      contains-collect_fields d (collect_refs v refs),
      contains-collect_refs v refs,
      any-append p (texts v) (texts_fields d),
    )
