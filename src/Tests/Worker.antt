-- ===== src/Tests/Worker.antt =====
-- A worker whose executor prepares the run that it gets.
use sdp_studio.Prelude.{
  ◌≤◌, ◌<◌, String, ◌≡◌, ◌≢◌, refl, ap, Bool, Bool-cases, inl, inr, true, false, List, [], ◌∷◌,
  Option, none, some, arith, ◌==◌,
}
use sdp_studio.Runs.Status.{RunStatus, queued, preparing, same_status, is_valid_run_transition}
use sdp_studio.Runs.Life.{same_status_eq}
use sdp_studio.Runs.Store.{
  Run, Store, find_run, create_run, update_where, update_run, apply_all, apply_change,
  transition_run, transition_row,
}
use sdp_studio.Runs.Claims.{has_token, release_run_claim}
use sdp_studio.Runs.Rows.{IsKeyed}
use sdp_studio.Runs.Edits.{Edit-IsKeyed, transition_run-Edit}
use sdp_studio.Runs.Lost.{create_run-IsKeyed}
use sdp_studio.Runs.Worker.{Executor, finished, poll_once_async, out_of_fuel, drain_async}
use sdp_studio.Runs.Drain.{waiting, run_of, poll_once_async-free}
use sdp_studio.Runs.Ends.{IsSettling, drain_async-ends}

abbrev advance : Executor
advance r s = (finished, record s { runs = (transition_run r.id preparing [] s.runs s.runs).1 })

abbrev prepare : Run → Run
prepare r = record r { status = preparing }

waiting_le :
    (p : Run → Bool) (runs : List Run) → waiting (update_where p prepare runs) ≤ waiting runs
unfolding update_where
waiting_le p [] = omega arith
waiting_le p (r ∷ runs) = ground (arith, waiting_le p runs)

abbrev status_of : Option Run → RunStatus
status_of none = queued
status_of (some r) = r.status

waiting_lt :
    (id : String) (runs : List Run) (r : Run)
    → find_run id runs ≡ some r
    → same_status r.status queued ≡ true
    → waiting (update_where (λ x. x.id == id) prepare runs) < waiting runs
unfolding update_where find_run
waiting_lt id [] r h q = cc
waiting_lt id (x ∷ runs) r h q = elim (Bool-cases (x.id == id)) [
  | inl here ↦
      let same : x.status ≡ r.status = ap status_of (rw here at h) in
      ground (arith, here, waiting_le (λ y. y.id == id) runs, ap (λ s. same_status s queued) same)
  | inr there ↦ ground (arith, there, waiting_lt id runs r)
]

moves_row :
    (r : Run) (runs : List Run)
    → same_status r.status queued ≡ true
    → (transition_row r r.id preparing [] runs).1 ≡ update_where (λ x. x.id == r.id) prepare runs
unfolding transition_row update_run apply_all apply_change is_valid_run_transition
moves_row r runs q =
    let valid = ap (λ s. is_valid_run_transition s preparing) (same_status_eq r.status queued q) in
    rw valid refl

advanced :
    (r : Run) (runs : List Run)
    → find_run r.id runs ≡ some r
    → same_status r.status queued ≡ true
    → (transition_run r.id preparing [] runs runs).1 ≡ update_where (λ x. x.id == r.id) prepare runs
unfolding transition_run
advanced r runs h q = rw (h, transition_run) (moves_row r runs q)

advance-IsSettling : IsSettling advance
advance-IsSettling = record {
  keyed = λ r s h.
      Edit-IsKeyed (λ a b. a.id ≡ a.id) s.runs _
        (transition_run-Edit (λ a b. a.id ≡ a.id) r.id preparing [] s.runs s.runs
          (λ row at valid a e hit. refl))
        h;
  settles = λ r s h q quiet.
      inr (omega (arith, ap waiting (advanced r s.runs h q), waiting_lt r.id s.runs r h q));
}

abbrev queue : Run
queue = record {
  id = "r1";
  project_id = "p";
  status = queued;
  created_at = 1;
  started_at = none;
  finished_at = none;
  exit_code = none;
  error = none;
  claim_token = none;
  claimed_at = none;
  heartbeat_at = none;
}

abbrev store : Store
store = record { runs = queue ∷ []; run_events = [] }

store-IsKeyed : IsKeyed store.runs
unfolding create_run
store-IsKeyed =
    create_run-IsKeyed queue (record { runs = []; run_events = [] })
      (record { first = λ r m. elim m [ ] })

drain_async-ends_example :
    (drain_async advance "w" (λ n. "w:1") (λ n. 100) 60 none 2 0 [] store).0 ≢ out_of_fuel
drain_async-ends_example =
    drain_async-ends advance advance-IsSettling "w" (λ n. "w:1") (λ n. 100) 60 none 2 0 [] store
      store-IsKeyed (omega arith)

abbrev taken : Run
taken = record queue { claim_token = some "w:1"; claimed_at = some 100; heartbeat_at = some 100 }

abbrev left : Run
left = record queue { status = preparing }

poll_runs : run_of (poll_once_async advance "w" "w:1" 60 100 store).0 ≡ some taken
unfolding poll_once_async
poll_runs = refl

poll_leaves : find_run "r1" (poll_once_async advance "w" "w:1" 60 100 store).1.runs ≡ some left
unfolding poll_once_async transition_run release_run_claim
poll_leaves = refl

poll_once_async-free_example : has_token "w:1" none ≡ false
poll_once_async-free_example =
    poll_once_async-free advance "w" "w:1" 60 100 store taken left poll_runs poll_leaves
