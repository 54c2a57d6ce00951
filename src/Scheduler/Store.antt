-- ===== src/Scheduler/Store.antt =====
-- The table of schedules in python/sdpstudio_server/storage.py. The times of creation and of updates
-- are left out, and each operation is one transaction.
use sdp_studio.Prelude.{
  ℕ, String, Bool, true, false, List, [], ◌∷◌, ◌++◌, Option, none, some, not, ◌&&◌, count, length,
  any, contains, keep, eqb, ◌==◌, if◌then◌else◌,
}
use sdp_studio.Scheduler.{Schedule}
use sdp_studio.Scheduler.Clock.{points, words}

-- What an operation returns, or a `KeyError`, or a `ValueError`.
pub data Result : Type 0 where
  stored : Schedule → Result
  deleted : Result
  unknown : String → Result
  invalid : Result

-- The five checks, of which the first is `get_project_row`.
is_valid_schedule : Schedule → Bool
is_valid_schedule s =
    eqb (length (words (points s.cron))) 5
    && contains ("incremental" ∷ "refresh" ∷ "full-refresh-all" ∷ []) s.mode
    && contains ("skip" ∷ "forbid" ∷ "replace" ∷ []) s.concurrency_policy
    && contains ("skip" ∷ "run_once" ∷ []) s.missed_run_policy

-- The id is the next `new_ulid`.
unfoldable pub create_schedule : List String → Schedule → List Schedule → Result × List Schedule
unfolding is_valid_schedule
create_schedule projects s rows =
    if not (contains projects s.project_id)
    then (unknown s.project_id, rows)
    else if not (is_valid_schedule s)
    then (invalid, rows)
    else let row = record s { last_claim_marker = none } in (stored row, rows ++ row ∷ [])

unfoldable pub find_schedule : String → List Schedule → Option Schedule
find_schedule id [] = none
find_schedule id (s ∷ rows) = if s.id == id then some s else find_schedule id rows

-- An item of `updates`.
pub data ScheduleChange : Type 0 where
  enabled : Bool → ScheduleChange
  name cron timezone mode concurrency_policy missed_run_policy : String → ScheduleChange
  runtime_profile_id : Option String → ScheduleChange
  unsupported : String → ScheduleChange

is_supported : ScheduleChange → Bool
is_supported (unsupported key) = false
is_supported _ = true

unfoldable pub apply_update : ScheduleChange → Schedule → Schedule
apply_update (enabled b) s = record s { enabled = b }
apply_update (name v) s = record s { name = v }
apply_update (cron v) s = record s { cron = v }
apply_update (timezone v) s = record s { timezone = v }
apply_update (mode v) s = record s { mode = v }
apply_update (concurrency_policy v) s = record s { concurrency_policy = v }
apply_update (missed_run_policy v) s = record s { missed_run_policy = v }
apply_update (runtime_profile_id v) s = record s { runtime_profile_id = v }
apply_update (unsupported key) s = s

unfoldable pub apply_updates : List ScheduleChange → Schedule → Schedule
unfolding apply_update
apply_updates [] s = s
apply_updates (c ∷ changes) s = apply_updates changes (apply_update c s)

-- `UPDATE schedules SET ... WHERE ...`
unfoldable pub set_where : (Schedule → Bool) → (Schedule → Schedule) → List Schedule → List Schedule
set_where p f [] = []
set_where p f (s ∷ rows) = (if p s then f s else s) ∷ set_where p f rows

-- `get_schedule`
got : String → Option Schedule → Result
got id none = unknown id
got id (some s) = stored s

unfoldable pub update_schedule :
    String → List ScheduleChange → List Schedule → Result × List Schedule
unfolding is_supported set_where apply_updates got find_schedule
update_schedule id updates rows =
    if not (any is_supported updates)
    then (invalid, rows)
    else if not (any (λ s. s.id == id) rows)
    then (unknown id, rows)
    else let next = set_where (λ s. s.id == id) (apply_updates updates) rows in
      (got id (find_schedule id next), next)

unfoldable pub delete_schedule : String → List Schedule → Result × List Schedule
delete_schedule id rows =
    if any (λ s. s.id == id) rows
    then (deleted, keep (λ s. not (s.id == id)) rows)
    else (unknown id, rows)

unfoldable pub differs : Option ℕ → ℕ → Bool
differs none marker = true
differs (some m) marker = not (eqb m marker)

unfoldable pub is_open_to : String → ℕ → Schedule → Bool
unfolding differs
is_open_to id marker s = s.id == id && s.enabled && differs s.last_claim_marker marker

unfoldable pub claim_schedule : String → ℕ → List Schedule → Bool × List Schedule
unfolding is_open_to set_where
claim_schedule id marker rows = (
  eqb (count (is_open_to id marker) rows) 1,
  set_where (is_open_to id marker) (λ s. record s { last_claim_marker = some marker }) rows,
)
