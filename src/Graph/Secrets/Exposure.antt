-- ===== src/Graph/Secrets/Exposure.antt =====
-- The scan of a configuration reports an error exactly if a literal stands under a marked key.
use sdp_studio.Prelude.{
  ◌⊎◌, inl, inr, ◌↔◌, String, ◌≡◌, refl, sym, ◌∙◌, Bool, true, false, ◌&&◌, ◌||◌, List, [], ◌∷◌,
  if◌then◌else◌, arith,
}
use sdp_studio.Json.{Json, Items, Fields, null, bool, num, str, list, dict, nil, cons, end, field}
use sdp_studio.Models.{Problem}
use sdp_studio.Models.Problems.{has_errors, has_errors-append}
use sdp_studio.Graph.Secrets.{
  is_marked, is_literal, scan, scan_items, scan_fields, secret_problem, secret_literal_problems,
}

-- A literal under a marked key, at any depth of dictionaries and lists.
mutual
  pub data Exposed : Json → Type 0 where
    in_list : {vs : Items} → ExposedItems vs → Exposed (list vs)
    in_dict : {d : Fields} → ExposedFields d → Exposed (dict d)

  pub data ExposedItems : Items → Type 0 where
    first : {v : Json} {vs : Items} → Exposed v → ExposedItems (cons v vs)
    later : {v : Json} {vs : Items} → ExposedItems vs → ExposedItems (cons v vs)

  pub data ExposedFields : Fields → Type 0 where
    literal :
        {k : String} {v : Json} {d : Fields}
        → is_marked k ≡ true
        → is_literal v ≡ true
        → ExposedFields (field k v d)
    below : {k : String} {v : Json} {d : Fields} → Exposed v → ExposedFields (field k v d)
    beside : {k : String} {v : Json} {d : Fields} → ExposedFields d → ExposedFields (field k v d)

module _ (node_id : String) where
  if_problem :
      (b : Bool) (ps : List Problem)
      → has_errors (if b then secret_problem node_id ∷ [] else ps) ≡ b || has_errors ps
  if_problem true ps = refl
  if_problem false ps = refl

  mutual
    unfolding scan scan_items scan_fields

    reported : (v : Json) → Exposed v → has_errors (scan node_id v) ≡ true
    reported (list vs) (in_list x) = reported_items vs x
    reported (dict d) (in_dict x) = reported_fields d x
    reported null x = elim x [ ]
    reported (bool b) x = elim x [ ]
    reported (num m n) x = elim x [ ]
    reported (str s) x = elim x [ ]

    reported_items : (vs : Items) → ExposedItems vs → has_errors (scan_items node_id vs) ≡ true
    reported_items nil x = elim x [ ]
    reported_items (cons v vs) (first x) =
        ground (arith, has_errors-append (scan node_id v) (scan_items node_id vs), reported v x)
    reported_items (cons v vs) (later x) =
        ground
          (arith, has_errors-append (scan node_id v) (scan_items node_id vs), reported_items vs x)

    reported_fields : (d : Fields) → ExposedFields d → has_errors (scan_fields node_id d) ≡ true
    reported_fields end x = elim x [ ]
    reported_fields (field k v d) (literal marked lit) = ground (
      arith,
      if_problem (is_marked k && is_literal v) (scan node_id v),
      has_errors-append
          (if is_marked k && is_literal v then secret_problem node_id ∷ [] else scan node_id v)
          (scan_fields node_id d),
    )
    reported_fields (field k v d) (below x) = ground (
      arith,
      reported v x,
      if_problem (is_marked k && is_literal v) (scan node_id v),
      has_errors-append
          (if is_marked k && is_literal v then secret_problem node_id ∷ [] else scan node_id v)
          (scan_fields node_id d),
    )
    reported_fields (field k v d) (beside x) = ground (
      arith,
      reported_fields d x,
      has_errors-append
          (if is_marked k && is_literal v then secret_problem node_id ∷ [] else scan node_id v)
          (scan_fields node_id d),
    )

  or_cases : (a b : Bool) → a || b ≡ true → (a ≡ true) ⊎ (b ≡ true)
  or_cases true b h = inl refl
  or_cases false b h = inr h

  and_true : (a b : Bool) → a && b ≡ true → (a ≡ true) × (b ≡ true)
  and_true a b h = (ground arith, ground arith)

  mutual
    unfolding scan scan_items scan_fields

    exposed : (v : Json) → has_errors (scan node_id v) ≡ true → Exposed v
    exposed (list vs) h = in_list (exposed_items vs h)
    exposed (dict d) h = in_dict (exposed_fields d h)
    exposed null h = cc
    exposed (bool b) h = cc
    exposed (num m n) h = cc
    exposed (str s) h = cc

    exposed_items : (vs : Items) → has_errors (scan_items node_id vs) ≡ true → ExposedItems vs
    exposed_items nil h = cc
    exposed_items (cons v vs) h =
        elim (or_cases (has_errors (scan node_id v)) (has_errors (scan_items node_id vs))
          (sym (has_errors-append (scan node_id v) (scan_items node_id vs)) ∙ h)) [
            | inl here ↦ first (exposed v here)
            | inr there ↦ later (exposed_items vs there)
          ]

    exposed_fields : (d : Fields) → has_errors (scan_fields node_id d) ≡ true → ExposedFields d
    exposed_fields end h = cc
    exposed_fields (field k v d) h =
        elim (or_cases (is_marked k && is_literal v || has_errors (scan node_id v))
          (has_errors (scan_fields node_id d))
          (ground (
            arith,
            if_problem (is_marked k && is_literal v) (scan node_id v),
            has_errors-append
                (if is_marked k && is_literal v
                  then secret_problem node_id ∷ []
                  else scan node_id v)
                (scan_fields node_id d),
          ))) [
            | inl here ↦
                elim (or_cases (is_marked k && is_literal v) (has_errors (scan node_id v)) here) [
                  | inl now ↦
                      let (marked, lit) = and_true (is_marked k) (is_literal v) now in
                      literal marked lit
                  | inr inner ↦ below (exposed v inner)
                ]
            | inr there ↦ beside (exposed_fields d there)
          ]

-- The scan of a node's configuration reports an error exactly if, at some depth of nested
-- dictionaries and lists, a key that contains one of the markers holds a non-empty text that does
-- not begin with `secret://`.
pub secret_literal_problems_exact :
    (node_id : String) (config : Fields)
    → (has_errors (secret_literal_problems node_id config) ≡ true) ↔ ExposedFields config
unfolding secret_literal_problems
secret_literal_problems_exact node_id config =
    (exposed_fields node_id config, reported_fields node_id config)
