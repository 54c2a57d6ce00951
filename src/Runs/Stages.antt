-- ===== src/Runs/Stages.antt =====
-- A run succeeds by way of every stage.
use sdp_studio.Prelude.{
  suc, ◌≤◌, String, ◌≡◌, refl, sym, ap, ◌∙◌, Bool, Bool-cases, inl, inr, true, not, ◌&&◌, ◌||◌,
  List, [], ◌∷◌, ◌++◌, Memᴰ, true_of_all, eqb, some, arith,
}
use sdp_studio.Runs.Status.{
  RunStatus, created, queued, preparing, validating, submitting, running, collecting_artifacts,
  succeeded, same_status, is_valid_run_transition,
}
use sdp_studio.Runs.Store.{Run, Store, find_run}
use sdp_studio.Runs.Rows.{IsKeyed}
use sdp_studio.Runs.Life.{
  stage, on_course, every_two, stage_top, course_step, on_course-stage, same_status_eq,
}
use sdp_studio.Runs.Operations.{Operation, perform, perform_all, throughout, is_disciplined}
use sdp_studio.Runs.Moves.{perform-IsKeyed, perform-Follows, all-History}

abbrev pub stages : List RunStatus
stages =
    created ∷ queued ∷ preparing ∷ validating ∷ submitting ∷ running ∷ collecting_artifacts
    ∷ succeeded ∷ []

-- Some first operations leave the run in this status.
pub record Reaches (ops : List Operation) (s : Store) (id : String) (v : RunStatus) : Type 0 where
  pub before : List Operation
  pub later : List Operation
  pub split : before ++ later ≡ ops
  pub row : Run
  pub found : find_run id (perform_all before s).runs ≡ some row
  pub reached : row.status ≡ v

one_stage : RunStatus → RunStatus → Bool
unfolding stage on_course
one_stage s t = not (on_course s && (on_course t && eqb (stage s) (stage t))) || same_status s t

one_stage_all : (s t : RunStatus) → one_stage s t ≡ true
one_stage_all = every_two one_stage (unfold one_stage in refl)

stage_same : (s t : RunStatus) → on_course s ≡ true → on_course t ≡ true → stage s ≡ stage t → s ≡ t
unfolding one_stage
stage_same s t a b e = same_status_eq s t (ground (arith, one_stage_all s t))

row_same : {r s : Run} → some r ≡ some s → r ≡ s
row_same h = cc

-- One valid step to a status on the way to success.
on_course-step :
    (s t : RunStatus)
    → is_valid_run_transition s t ≡ true
    → on_course t ≡ true
    → (on_course s ≡ true) × (stage t ≤ suc (stage s))
on_course-step s t valid good = elim (Bool-cases (same_status s t)) [
  | inl same ↦ let e = same_status_eq s t same in (ap on_course e ∙ good, omega (arith, ap stage e))
  | inr other ↦ let (start, next) = course_step s t valid other good in (start, omega (arith, next))
]

reaches :
    (ops : List Operation) (s : Store) (id : String) (r r' : Run) (v : RunStatus)
    → throughout (is_disciplined id) ops s ≡ true
    → IsKeyed s.runs
    → find_run id s.runs ≡ some r
    → find_run id (perform_all ops s).runs ≡ some r'
    → on_course r'.status ≡ true
    → on_course v ≡ true
    → stage r.status ≤ stage v
    → stage v ≤ stage r'.status
    → Reaches ops s id v
unfolding throughout
reaches [] s id r r' v fair keyed row end good on low high =
    let same : r ≡ r' = row_same (sym row ∙ end) in
    let at = ap (λ (x : Run). x.status) same in
    record {
      before = [];
      later = [];
      split = refl;
      row = r;
      found = row;
      reached = stage_same r.status v (ap on_course at ∙ good) on (omega (arith, ap stage at));
    }
reaches (op ∷ ops) s id r r' v fair keyed row end good on low high =
    let (m, found, valid) = perform-Follows op s id r (ground arith) keyed row in
    let keyed' = perform-IsKeyed op s keyed in
    let (q, n, there, path) = all-History ops (perform op s) id m (ground arith) keyed' found in
    let same : q ≡ r' = row_same (sym there ∙ end) in
    let good_q = ap (λ (x : Run). on_course x.status) same ∙ good in
    let (good_m, _) = on_course-stage path good_q in
    let (good_r, step) = on_course-step r.status m.status valid good_m in
    elim (Bool-cases (eqb (stage r.status) (stage v))) [
      | inl here ↦ record {
        before = [];
        later = op ∷ ops;
        split = refl;
        row = r;
        found = row;
        reached = stage_same r.status v good_r on (ground arith);
      }
      | inr on_the_way ↦
          let rest =
            reaches ops (perform op s) id m r' v (ground arith) keyed' found end good on
              (ground (arith, step)) high in
          record {
            before = op ∷ rest.before;
            later = rest.later;
            split = ap (λ xs. op ∷ xs) rest.split;
            row = rest.row;
            found = rest.found;
            reached = rest.reached;
          }
    ]

-- Let operations follow on a store of distinct run ids, in which updates and the further fields of
-- transitions do not name the status, the status that a transition reads is still there when it is
-- written, and the project of the run is not deleted. If they take a run from `created` to `succeeded`,
-- then each of the eight stages between is the status of the run after some first of them.
pub perform_all-stages :
    (ops : List Operation) (s : Store) (id : String) (r r' : Run) (v : RunStatus)
    → throughout (is_disciplined id) ops s ≡ true
    → IsKeyed s.runs
    → find_run id s.runs ≡ some r
    → r.status ≡ created
    → find_run id (perform_all ops s).runs ≡ some r'
    → r'.status ≡ succeeded
    → Memᴰ v stages
    → Reaches ops s id v
unfolding stage on_course
perform_all-stages ops s id r r' v fair keyed row start end finish m =
    let low = ap stage start in
    let high = ap stage finish in
    reaches ops s id r r' v fair keyed row end (ap on_course finish)
      (true_of_all on_course v stages refl m) (omega (arith, low))
      (ground (arith, stage_top v, high))
