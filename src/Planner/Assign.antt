-- ===== src/Planner/Assign.antt =====
-- The plan as a list: one assignment for each output in the order, one refusal for each output that
-- SQL cannot express.
use text.Mathlib.Text.{starts_with}
use mathlib.Core.List.{append-nil, append_assoc}
use sdp_studio.Prelude.{
  String, Bool, true, false, List, [], ◌∷◌, ◌++◌, ◌≡◌, ◌≢◌, refl, ◌∙◌, ◌↔◌, inl, inr, Bool-cases,
  Option, none, some, map, keep, contains, contains-eq-occ, arith, eq_refl, ◌==◌,
}
use sdp_studio.Prelude.Dict.{Dict, lookup}
use sdp_studio.Prelude.Sort.{sort, count-sort_by}
use sdp_studio.Models.{Node, Problem, to_set}
use sdp_studio.Models.Ids.{contains-to_set}
use sdp_studio.Graph.Index.{GraphIndex}
use sdp_studio.Graph.Order.{done}
use sdp_studio.Models.Problems.{has_errors}
use sdp_studio.Graph.Validate.{gather}
use sdp_studio.Planner.{
  python, sql, Preference, auto, prefer_sql, prefer_python, MixedLanguagePlan, DatasetLanguagePlan,
  assign_language, refusal, unsupported_above, plan_outputs, plan_output,
}

abbrev dataset_type : Option Node → Bool
dataset_type none = false
dataset_type (some n) = starts_with n.type "dataset."

-- The id of an output.
abbrev pub is_output_id : Dict Node → String → Bool
is_output_id nodes v = dataset_type (lookup v nodes)

-- `tuple(sorted(set(unsupported)))`
abbrev pub reasons_of : List String → List String
reasons_of us = sort (to_set us)

pub contains-reasons_of :
    (us : List String) (why : String) → contains (reasons_of us) why ≡ contains us why
contains-reasons_of us why = ground (
  arith,
  contains-eq-occ (sort (to_set us)) why,
  contains-eq-occ (to_set us) why,
  count-sort_by (λ n. n) (λ n. n == why) (to_set us),
  contains-to_set us why,
)

pub id-assign_language :
    (preference : Preference) (v : String) (rs : List String)
    → (assign_language preference v rs).dataset_id ≡ v
unfolding assign_language
id-assign_language prefer_python v rs = refl
id-assign_language prefer_sql v [] = refl
id-assign_language prefer_sql v (_ ∷ _) = refl
id-assign_language auto v [] = refl
id-assign_language auto v (_ ∷ _) = refl

pub language-assign_language :
    (v : String) (rs : List String)
    → ((assign_language auto v rs).language ≡ python) ↔ ((why : String) × (contains rs why ≡ true))
unfolding assign_language
language-assign_language v [] = (λ e. cc, λ (why, m). cc)
language-assign_language v (reason ∷ rs) =
    (λ e. (reason, ground (arith, eq_refl reason)), λ _. refl)

pub sql-assign_language :
    (v : String) (rs : List String)
    → ((assign_language auto v rs).language ≡ sql) ↔ ((why : String) → contains rs why ≢ true)
unfolding assign_language
sql-assign_language v [] = (λ e why m. cc, λ h. refl)
sql-assign_language v (reason ∷ rs) =
    (λ e. cc, λ h. absurd (h reason (ground (arith, eq_refl reason))))

pub refused_some :
    (v : String) (rs : List String) (why : String)
    → contains rs why ≡ true
    → has_errors (refusal prefer_sql v rs) ≢ false
unfolding refusal
refused_some v [] why m h = cc
refused_some v (reason ∷ rs) why m h = cc

pub refused_none :
    (v : String) (rs : List String)
    → ((why : String) → contains rs why ≢ true)
    → has_errors (refusal prefer_sql v rs) ≡ false
unfolding refusal
refused_none v [] h = refl
refused_none v (reason ∷ rs) h = absurd (h reason (ground (arith, eq_refl reason)))

module _ (preference : Preference) (g : GraphIndex) (us : String → List String)
    (ends : (v : String) → unsupported_above g v ≡ done (us v)) where
  abbrev pub assigned : List String → List DatasetLanguagePlan
  assigned order =
      map (λ v. assign_language preference v (reasons_of (us v)))
        (keep (is_output_id g.nodes) order)

  abbrev pub refused : List String → List Problem
  refused order =
      gather (λ v. refusal preference v (reasons_of (us v))) (keep (is_output_id g.nodes) order)

  pub plan_outputs-lists :
      (order : List String) (plan : MixedLanguagePlan)
      → ((v : String) → contains order v ≡ true → (n : Node) × (lookup v g.nodes ≡ some n))
      → plan_outputs preference g order plan
        ≡ done (record {
          assignments = plan.assignments ++ assigned order;
          problems = plan.problems ++ refused order;
        })
  unfolding plan_outputs plan_output
  plan_outputs-lists [] plan known = cc (append-nil plan.assignments, append-nil plan.problems)
  plan_outputs-lists (v ∷ order) plan known =
      let (n, found) = known v (ground (arith, eq_refl v)) in
      elim (Bool-cases (starts_with n.type "dataset.")) [
        | inl output ↦
            rw (found, output, ends v, plan_outputs)
              (plan_outputs-lists order (plan_output preference v (us v) plan)
                  (λ w m. known w (ground arith))
                ∙ cc (
                  append_assoc plan.assignments
                      (assign_language preference v (reasons_of (us v)) ∷ []) (assigned order),
                  append_assoc plan.problems (refusal preference v (reasons_of (us v)))
                      (refused order),
                ))
        | inr inner ↦
            rw (found, inner, plan_outputs)
              (plan_outputs-lists order plan (λ w m. known w (ground arith)))
      ]
