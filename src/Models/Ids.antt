-- ===== src/Models/Ids.antt =====
-- The document validator accepts exactly the documents whose node ids and edge ids are distinct.
use sdp_studio.Prelude.{
  String, ◌≡◌, refl, ◌↔◌, ◌≤◌, Bool, true, List, [], ◌∷◌, arith, length, occ, contains,
  contains-eq-occ, eqb, eq_iff, eq_refl,
}
use sdp_studio.Models.{PipelineDocument, node_ids, edge_ids, to_set, valid, ensure_unique_ids}

abbrev pub Distinct : List String → Type 0
Distinct xs = (v : String) → occ v xs ≤ 1

pub contains-to_set : (xs : List String) (v : String) → contains (to_set xs) v ≡ contains xs v
unfolding to_set
contains-to_set [] v = refl
contains-to_set (x ∷ xs) v = ground (arith, contains-to_set xs v, contains-to_set xs x, eq_iff x v)

length-to_set : (xs : List String) → length (to_set xs) ≤ length xs
unfolding to_set
length-to_set [] = omega arith
length-to_set (x ∷ xs) = ground (arith, length-to_set xs)

to_set-Distinct : (xs : List String) → Distinct xs → length (to_set xs) ≡ length xs
unfolding to_set
to_set-Distinct [] h = refl
to_set-Distinct (x ∷ xs) h = ground (
  arith,
  to_set-Distinct xs (λ v. ground (arith, h v)),
  h x,
  eq_refl x,
  contains-to_set xs x,
  contains-eq-occ xs x,
)

occ-le-one : (xs : List String) (v : String) → length (to_set xs) ≡ length xs → occ v xs ≤ 1
unfolding to_set
occ-le-one [] v e = omega arith
occ-le-one (x ∷ xs) v e = ground (
  arith,
  occ-le-one xs v,
  length-to_set xs,
  contains-to_set xs x,
  contains-eq-occ xs x,
  eq_iff x v,
)

-- Comparing the two lengths decides whether a text is repeated.
abbrev same_size : List String → Bool
same_size xs = eqb (length xs) (length (to_set xs))

same_size_iff : (xs : List String) → (same_size xs ≡ true) ↔ Distinct xs
same_size_iff xs =
    (λ h v. occ-le-one xs v (ground arith), λ d. ground (arith, to_set-Distinct xs d))

-- A document passes the validator, unchanged, exactly when no node id and no edge id is repeated.
pub ensure_unique_ids-valid_iff :
    (document : PipelineDocument)
    → (ensure_unique_ids document ≡ valid document)
      ↔ (Distinct (node_ids document) × Distinct (edge_ids document))
unfolding ensure_unique_ids
ensure_unique_ids-valid_iff document = (
  λ h. (
    (same_size_iff (node_ids document)).0 (ground arith),
    (same_size_iff (edge_ids document)).0 (ground arith),
  ),
  λ d.
      ground (
        arith,
        (same_size_iff (node_ids document)).1 d.0,
        (same_size_iff (edge_ids document)).1 d.1,
      ),
)
