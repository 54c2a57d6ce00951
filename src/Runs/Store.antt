-- ===== src/Runs/Store.antt =====
-- The tables `runs` and `run_events`, with `create_run`, `update_run`, `transition_run` and the row
-- that `get_run` reads (python/sdpstudio_server/storage.py). Times are in microseconds. An
-- operation's commands to the database are one transaction, but for `transition_run`, which reads in one
-- and writes in another.
use sdp_studio.Prelude.{
  ℕ, String, Bool, List, [], ◌∷◌, ◌++◌, Option, none, some, is_some, map, keep, not, contains,
  if◌then◌else◌, ◌==◌,
}
use sdp_studio.Prelude.Int.{ℤ}
use sdp_studio.Runs.Status.{RunStatus, is_valid_run_transition}

-- The columns that the operations read or write.
pub record Run : Type 0 where
  pub id : String
  pub project_id : String
  pub status : RunStatus
  pub created_at : ℕ
  pub started_at : Option ℕ
  pub finished_at : Option ℕ
  pub exit_code : Option ℤ
  pub error : Option String
  pub claim_token : Option String
  pub claimed_at : Option ℕ
  pub heartbeat_at : Option ℕ

pub record RunEvent : Type 0 where
  pub run_id : String
  pub seq : ℕ
  pub ts : ℕ
  pub kind : String
  pub message : String

pub record Store : Type 0 where
  pub runs : List Run
  pub run_events : List RunEvent

-- `SELECT * FROM runs WHERE id=?`
unfoldable pub find_run : String → List Run → Option Run
find_run id [] = none
find_run id (r ∷ runs) = if r.id == id then some r else find_run id runs

-- `UPDATE runs SET ... WHERE ...`
unfoldable pub update_where : (Run → Bool) → (Run → Run) → List Run → List Run
update_where p f [] = []
update_where p f (r ∷ runs) = (if p r then f r else r) ∷ update_where p f runs

-- One keyword argument of `update_run`. `other` stands for the columns that the model leaves out and
-- for the names that are not allowed.
pub data Change : Type 0 where
  status : RunStatus → Change
  started_at finished_at claimed_at heartbeat_at : Option ℕ → Change
  exit_code : Option ℤ → Change
  error claim_token : Option String → Change
  other : String → Change

unfoldable pub apply_change : Change → Run → Run
apply_change (status s) r = record r { status = s }
apply_change (started_at t) r = record r { started_at = t }
apply_change (finished_at t) r = record r { finished_at = t }
apply_change (claimed_at t) r = record r { claimed_at = t }
apply_change (heartbeat_at t) r = record r { heartbeat_at = t }
apply_change (exit_code c) r = record r { exit_code = c }
apply_change (error e) r = record r { error = e }
apply_change (claim_token t) r = record r { claim_token = t }
apply_change (other name) r = r

-- `update_run`
unfoldable pub apply_all : List Change → Run → Run
unfolding apply_change
apply_all [] r = r
apply_all (c ∷ changes) r = apply_all changes (apply_change c r)

unfoldable pub update_run : String → List Change → List Run → List Run
unfolding update_where apply_all
update_run id changes runs = update_where (λ r. r.id == id) (apply_all changes) runs

-- `create_run`; the primary key refuses a second run of one id.
unfoldable pub create_run : Run → Store → Store
unfolding find_run
create_run r s = if is_some (find_run r.id s.runs) then s else record s { runs = s.runs ++ r ∷ [] }

-- What `transition_run` does besides returning: `get_run` raises `KeyError`.
pub data Transition : Type 0 where
  moved : Transition
  missing_run : String → Transition
  invalid_transition : RunStatus → RunStatus → Transition

-- `transition_run`, once `get_run` has returned the row `r`.
unfoldable pub transition_row :
    Run → String → RunStatus → List Change → List Run → Transition × List Run
unfolding update_run is_valid_run_transition
transition_row r id target changes runs =
    if is_valid_run_transition r.status target
    then (moved, update_run id (status target ∷ changes) runs)
    else (invalid_transition r.status target, runs)

-- `read` is the table that `get_run` reads, and `runs` the one that `update_run` finds later.
unfoldable pub transition_run :
    String → RunStatus → List Change → List Run → List Run → Transition × List Run
unfolding find_run transition_row
transition_run id target changes read runs = elim (find_run id read) [
  | none ↦ (missing_run id, runs)
  | some r ↦ transition_row r id target changes runs
]

-- What `delete_project` does to the two tables.
unfoldable pub delete_project : String → Store → Store
delete_project project_id s =
    let run_ids = map (λ r. r.id) (keep (λ r. r.project_id == project_id) s.runs) in
    record {
      runs = keep (λ r. not (r.project_id == project_id)) s.runs;
      run_events = keep (λ e. not (contains run_ids e.run_id)) s.run_events;
    }
