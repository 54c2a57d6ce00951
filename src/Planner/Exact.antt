-- ===== src/Planner/Exact.antt =====
-- The plan of a sound document.
use sdp_studio.Prelude.{
  map, String, false, List, ◌++◌, ◌≡◌, sym, ap, ◌∙◌, ◌↔◌, subst, Memᴰ, mem_of_map, map-mem, arith,
}
use sdp_studio.Models.{PipelineDocument, node_ids}
use sdp_studio.Models.Ids.{Distinct}
use sdp_studio.Models.Problems.{has_errors, has_errors-append}
use sdp_studio.Operators.{Operator}
use sdp_studio.Graph.Order.{done}
use sdp_studio.Graph.Validate.{gather}
use sdp_studio.Graph.Validate.Clean.{gather_clean}
use sdp_studio.Graph.Validate.Describe.{IsSound}
use sdp_studio.Planner.{
  python, sql, Preference, auto, prefer_sql, MixedLanguagePlan, DatasetLanguagePlan,
  assign_language, refusal, plan_pipeline,
}
use sdp_studio.Planner.Assign.{
  id-assign_language, language-assign_language, sql-assign_language, refused_some, refused_none,
}
use sdp_studio.Planner.Outputs.{IsOutput, NeedsPython, Planned, planned}

module _ {plugins : List Operator} {document : PipelineDocument}
    (p : Planned plugins document) where
  assigned-mem :
      (preference : Preference) (v : String)
      → IsOutput document v
      → Memᴰ
          (assign_language preference v (p.reasons v))
          (map (λ w. assign_language preference w (p.reasons w)) p.outputs)
  assigned-mem preference v output =
      map-mem (λ w. assign_language preference w (p.reasons w)) v p.outputs ((p.lists v).1 output)

  clean-refusal :
      (v : String)
      → (has_errors (refusal prefer_sql v (p.reasons v)) ≡ false)
        ↔ ((why : String) → ¬ NeedsPython document v why)
  clean-refusal v = (
    λ h why needs. refused_some v (p.reasons v) why ((p.needs v why).1 needs) h,
    λ none_needs. refused_none v (p.reasons v) (λ why m. none_needs why ((p.needs v why).0 m)),
  )

  language-exact :
      (v : String)
      → ((assign_language auto v (p.reasons v)).language ≡ python) ↔ (
          (why : String) × NeedsPython document
            (assign_language auto v (p.reasons v)).dataset_id
            why)
  language-exact v =
      let same = id-assign_language auto v (p.reasons v) in
      (
        λ e.
            let (why, m) = (language-assign_language v (p.reasons v)).0 e in
            (why, subst (λ w. NeedsPython document w why) (sym same) ((p.needs v why).0 m)),
        λ (why, needs).
            (language-assign_language v (p.reasons v)).1
              (why, (p.needs v why).1 (subst (λ w. NeedsPython document w why) same needs)),
      )

  sql-exact :
      (v : String)
      → ((assign_language auto v (p.reasons v)).language ≡ sql) ↔ (
          (why : String)
          → ¬ NeedsPython document (assign_language auto v (p.reasons v)).dataset_id why)
  sql-exact v =
      let same = id-assign_language auto v (p.reasons v) in
      let chosen = sql-assign_language v (p.reasons v) in
      (
        λ e why needs.
            chosen.0 e why ((p.needs v why).1 (subst (λ w. NeedsPython document w why) same needs)),
        λ h. chosen.1 (λ why m.
            h why (subst (λ w. NeedsPython document w why) (sym same) ((p.needs v why).0 m))),
      )

  refusals-clean :
      (has_errors (p.problems ++ gather (λ v. refusal prefer_sql v (p.reasons v)) p.outputs)
        ≡ false)
      ↔ ((v : String) → IsOutput document v → (why : String) → ¬ NeedsPython document v why)
  refusals-clean =
      let refusal_at = λ (v : String). refusal prefer_sql v (p.reasons v) in
      let clean = gather_clean refusal_at p.outputs in
      let split = has_errors-append p.problems (gather refusal_at p.outputs) in
      (
        λ h v output.
            (clean-refusal v).0 (clean.0 (ground (arith, split)) v ((p.lists v).1 output)),
        λ h.
            ground
              (arith, p.clean, split, clean.1 (λ v m. (clean-refusal v).1 (h v ((p.lists v).0 m)))),
      )

-- If the node ids of a document are distinct and the document is sound, the plan by default is made.
-- It has an assignment for exactly the outputs of the document, and assigns Python to an output
-- exactly if edges lead to it from a node of a type that SQL cannot express, and SQL exactly if no
-- edges do.
pub plan_pipeline-auto :
    (plugins : List Operator) (document : PipelineDocument)
    → Distinct (node_ids document)
    → IsSound plugins document
    → (plan : MixedLanguagePlan) × (plan_pipeline plugins document auto ≡ done plan)
      × ((v : String)
          → IsOutput document v
            ↔ ((a : DatasetLanguagePlan) × Memᴰ a plan.assignments × (a.dataset_id ≡ v)))
      × ((a : DatasetLanguagePlan)
          → Memᴰ a plan.assignments
          → ((a.language ≡ python) ↔ ((why : String) × NeedsPython document a.dataset_id why))
            × ((a.language ≡ sql) ↔ ((why : String) → ¬ NeedsPython document a.dataset_id why)))
plan_pipeline-auto plugins document distinct sound =
    let p = planned plugins document distinct sound in
    let choose = λ (v : String). assign_language auto v (p.reasons v) in
    (
      _,
      p.plans auto,
      λ v. (
        λ output. (choose v, assigned-mem p auto v output, id-assign_language auto v (p.reasons v)),
        λ (a, m, id).
            let (w, inside, e) = mem_of_map choose a p.outputs m in
            subst (IsOutput document)
              (sym (ap (λ (b : DatasetLanguagePlan). b.dataset_id) e ∙ id-assign_language auto w _)
                ∙ id)
              ((p.lists w).0 inside),
      ),
      λ a m.
          let (w, inside, e) = mem_of_map choose a p.outputs m in
          subst
            (λ (b : DatasetLanguagePlan).
              ((b.language ≡ python) ↔ ((why : String) × NeedsPython document b.dataset_id why))
              × ((b.language ≡ sql) ↔ ((why : String) → ¬ NeedsPython document b.dataset_id why)))
            (sym e) (language-exact p w, sql-exact p w),
    )

-- If the node ids of a document are distinct and the document is sound, the plan that prefers SQL is
-- made, and it reports no error exactly if no output of the document is below a node of a type that
-- SQL cannot express.
pub plan_pipeline-sql :
    (plugins : List Operator) (document : PipelineDocument)
    → Distinct (node_ids document)
    → IsSound plugins document
    → (plan : MixedLanguagePlan) × (plan_pipeline plugins document prefer_sql ≡ done plan)
      × ((has_errors plan.problems ≡ false)
          ↔ ((v : String) → IsOutput document v → (why : String) → ¬ NeedsPython document v why))
plan_pipeline-sql plugins document distinct sound =
    let p = planned plugins document distinct sound in (_, p.plans prefer_sql, refusals-clean p)
