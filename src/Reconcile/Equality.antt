-- ===== src/Reconcile/Equality.antt =====
-- Python's `==` on the values of a document: dicts compare by key, and `True` equals 1. A Boolean is
-- a number here, and a number the decimal that it is written as.
use sdp_studio.Prelude.{
  ℕ, suc, ◌*◌, ◌^◌, Bool, true, false, List, [], ◌∷◌, none, some, ◌&&◌, eqb, ◌==◌,
}
use sdp_studio.Prelude.Int.{ℤ, pos, negsuc}
use sdp_studio.Json.{
  Json, Items, Fields, null, bool, num, str, list, dict, nil, cons, end, field, get,
}
use sdp_studio.Models.{Node}

-- `m / 10 ^ s == n / 10 ^ t`
unfoldable pub same_number : ℤ → ℕ → ℤ → ℕ → Bool
same_number (pos m) s (pos n) t = eqb (m * 10 ^ t) (n * 10 ^ s)
same_number (negsuc m) s (negsuc n) t = eqb (suc m * 10 ^ t) (suc n * 10 ^ s)
same_number (pos m) s (negsuc n) t = false
same_number (negsuc m) s (pos n) t = false

abbrev number_of : Bool → ℤ
number_of true = pos 1
number_of false = pos 0

abbrev size : Fields → ℕ
size end = 0
size (field k v d) = suc (size d)

unfoldable mutual
  unfolding same_number

  pub same_json : Json → Json → Bool
  same_json null null = true
  same_json (bool b) (bool c) = same_number (number_of b) 0 (number_of c) 0
  same_json (bool b) (num n t) = same_number (number_of b) 0 n t
  same_json (num m s) (bool c) = same_number m s (number_of c) 0
  same_json (num m s) (num n t) = same_number m s n t
  same_json (str s) (str t) = s == t
  same_json (list vs) (list ws) = same_items vs ws
  same_json (dict d) (dict e) = eqb (size d) (size e) && same_fields d e
  same_json _ _ = false

  pub same_items : Items → Items → Bool
  same_items nil nil = true
  same_items (cons v vs) (cons w ws) = same_json v w && same_items vs ws
  same_items nil (cons w ws) = false
  same_items (cons v vs) nil = false

  -- Each key of the first is in the second, with an equal value.
  pub same_fields : Fields → Fields → Bool
  same_fields end e = true
  same_fields (field k v d) e =
      elim (get k e) [ none ↦ false | some w ↦ same_json v w ] && same_fields d e

unfoldable pub same_node : Node → Node → Bool
unfolding same_json same_fields
same_node a b =
    a.id == b.id
    && a.type == b.type
    && eqb a.operator_version b.operator_version
    && eqb (size a.config) (size b.config)
    && same_fields a.config b.config

unfoldable pub same_nodes : List Node → List Node → Bool
unfolding same_node
same_nodes [] [] = true
same_nodes (a ∷ ns) (b ∷ bs) = same_node a b && same_nodes ns bs
same_nodes [] (b ∷ bs) = false
same_nodes (a ∷ ns) [] = false
