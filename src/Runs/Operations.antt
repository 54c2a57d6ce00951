-- ===== src/Runs/Operations.antt =====
-- The operations of the store as data, and what sequences of them do to a run.
use sdp_studio.Prelude.{
  ℕ, String, Bool, true, false, List, [], ◌∷◌, all, Option, none, some, not, ◌&&◌, ◌==◌,
}
use sdp_studio.Runs.Status.{RunStatus, same_status}
use sdp_studio.Runs.Store.{
  Run, Store, Change, status, started_at, finished_at, claimed_at, heartbeat_at, exit_code, error,
  claim_token, other, update_run, create_run, find_run, transition_run, delete_project,
}
use sdp_studio.Runs.Claims.{claim_run, heartbeat_run, release_run_claim}
use sdp_studio.Runs.Recovery.{reconcile_non_terminal_runs}

-- One call of an operation, with the time at which it runs.
pub data Operation : Type 0 where
  create : Run → Operation
  update : String → List Change → Operation
  transition : String → RunStatus → List Change → (read : List Run) → Operation
  claim : (worker_id token : String) (lease_seconds now : ℕ) → Operation
  heartbeat : (run_id token : String) (now : ℕ) → Operation
  release : (run_id token : String) → Operation
  reconcile : ℕ → Operation
  delete : (project_id : String) → Operation

unfoldable pub perform : Operation → Store → Store
unfolding create_run update_run transition_run claim_run heartbeat_run release_run_claim
    delete_project
perform (create r) s = create_run r s
perform (update id changes) s = record s { runs = update_run id changes s.runs }
perform (transition id target changes read) s = record s {
  runs = (transition_run id target changes read s.runs).1;
}
perform (claim worker_id token lease_seconds now) s = record s {
  runs = (claim_run worker_id token lease_seconds now s.runs).1;
}
perform (heartbeat run_id token now) s = record s {
  runs = (heartbeat_run run_id token now s.runs).1;
}
perform (release run_id token) s = record s { runs = (release_run_claim run_id token s.runs).1 }
perform (reconcile now) s = (reconcile_non_terminal_runs now s).1
perform (delete project_id) s = delete_project project_id s

abbrev pub perform_all : List Operation → Store → Store
perform_all [] s = s
perform_all (op ∷ ops) s = perform_all ops (perform op s)

-- A change of another column than the status.
unfoldable pub spares_status : Change → Bool
spares_status (status s) = false
spares_status (started_at t) = true
spares_status (finished_at t) = true
spares_status (claimed_at t) = true
spares_status (heartbeat_at t) = true
spares_status (exit_code c) = true
spares_status (error e) = true
spares_status (claim_token t) = true
spares_status (other n) = true

-- A test of each operation and the store that it finds.
unfoldable pub throughout : (Operation → Store → Bool) → List Operation → Store → Bool
throughout f [] s = true
throughout f (op ∷ ops) s = let rest = throughout f ops (perform op s) in f op s && rest

-- The run is not one of the project.
unfoldable pub is_outside : String → Option Run → Bool
is_outside project_id none = true
is_outside project_id (some r) = not (r.project_id == project_id)

-- The status that was read is the one that is there, if there is a row in both tables.
unfoldable pub is_current : Option Run → Option Run → Bool
is_current (some r) (some s) = same_status r.status s.status
is_current _ _ = true

-- What the callers see to for a run: `update_run` and the further fields of `transition_run` do not
-- name the status, its status does not change between the reading and the writing of a transition,
-- and its project is not deleted.
unfoldable pub is_disciplined : String → Operation → Store → Bool
unfolding spares_status is_outside is_current find_run
is_disciplined id (create r) s = true
is_disciplined id (update i changes) s = all spares_status changes
is_disciplined id (transition i target changes read) s =
    all spares_status changes && is_current (find_run i read) (find_run i s.runs)
is_disciplined id (claim w t l n) s = true
is_disciplined id (heartbeat i t n) s = true
is_disciplined id (release i t) s = true
is_disciplined id (reconcile n) s = true
is_disciplined id (delete project_id) s = is_outside project_id (find_run id s.runs)
