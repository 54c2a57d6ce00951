-- ===== src/Scheduler.antt =====
-- python/sdpstudio_server/scheduler.py: cron fields, the search for the next minute and the worker that
-- dispatches runs. A moment is the number of its minute on the clock of its zone, since the start of
-- 1970: `timedelta` counts on that clock. A claim marker is the minute that it spells, so that a text
-- that spells none is no marker. A field has ASCII digits, and `int` reads digits alone.
pub mod Clock
pub mod Search
pub mod Tracked
pub mod Overlap
pub mod Store
pub mod Held
pub mod Claims
use sdp_studio.Prelude.{
  ℕ, zero, suc, ◌+◌, ◌*◌, String, Bool, true, false, List, [], ◌∷◌, ◌++◌, Option, none, some, not,
  ◌&&◌, ◌||◌, keep, contains, eqb, leb, ltb, ◌==◌, if◌then◌else◌,
}
use sdp_studio.Prelude.Dict.{Dict, lookup, insert}
use sdp_studio.Scheduler.Clock.{schedule_matches}

-- `range(366 * 24 * 60)`
abbrev pub minutes_of_a_year : ℕ
minutes_of_a_year = 527040

-- The loop of `next_fire`, where `due` is `schedule_matches` of the cron text.
unfoldable pub search : ℕ → (ℕ → Bool) → ℕ → Option ℕ
search zero due current = none
search (suc fuel) due current =
    let rest = search fuel due (suc current) in if due current then some current else rest

-- `after` is the minute that is over, on the clock of the zone. The `ValueError` on a name of no zone is
-- left out.
unfoldable pub next_fire : String → ℕ → Option ℕ
unfolding search
next_fire cron after = search minutes_of_a_year (schedule_matches cron) (suc after)

-- The loop of `_missed_since`.
unfoldable pub scan_minutes : ℕ → (ℕ → Bool) → ℕ → ℕ → Bool
scan_minutes zero due cursor current = false
scan_minutes (suc fuel) due cursor current =
    let rest = scan_minutes fuel due (suc cursor) current in
    if ltb current cursor then false else if due cursor then true else rest

unfoldable pub missed_since : String → Option ℕ → ℕ → Bool
unfolding scan_minutes
missed_since cron none moment = false
missed_since cron (some previous) moment =
    scan_minutes minutes_of_a_year (schedule_matches cron) (suc previous) moment

-- A row of the list of schedules, with the defaults of its missing keys.
pub record Schedule : Type 0 where
  pub id : String
  pub project_id : String
  pub name : String
  pub cron : String
  pub timezone : String
  pub enabled : Bool
  pub runtime_profile_id : Option String
  pub mode : String
  pub missed_run_policy : String
  pub concurrency_policy : String
  pub last_claim_marker : Option ℕ

-- The dispatches that have not ended are numbered in the order of their start.
pub record Worker : Type 0 where
  pub last_minute : Option ℕ
  pub running : List String
  pub running_tasks : Dict ℕ
  pub live : List (ℕ × String)
  pub next_task : ℕ

unfoldable pub discard : String → List String → List String
discard id ids = keep (λ other. not (other == id)) ids

unfoldable pub pop {ℓ} : {A : Type ℓ} → String → Dict A → Dict A
pop id [] = []
pop id ((k, v) ∷ d) = let rest = pop id d in if k == id then rest else (k, v) ∷ rest

-- A dispatch ends: `_dispatch_finished`.
unfoldable pub dispatch_finished : ℕ → String → Worker → Worker
unfolding discard pop
dispatch_finished task id w = record w {
  running = discard id w.running;
  running_tasks = pop id w.running_tasks;
  live = keep (λ (t, _). not (eqb t task)) w.live;
}

-- `self._running.add(...)`, and a new task
unfoldable pub dispatch : String → Worker → Worker
dispatch id w = record w {
  running = if contains w.running id then w.running else id ∷ w.running;
  running_tasks = insert id w.next_task w.running_tasks;
  live = (w.next_task, id) ∷ w.live;
  next_task = suc w.next_task;
}

-- The task that is replaced is cancelled and waited for.
unfoldable pub cancel : String → Option ℕ → Worker → Worker
unfolding dispatch_finished
cancel id none w = w
cancel id (some task) w = dispatch_finished task id w

-- What the concurrency policy makes of a schedule that runs.
unfoldable pub overlap : String → String → Worker → Worker
unfolding cancel dispatch
overlap policy id w =
    if policy == "skip" || policy == "forbid"
    then w
    else if policy == "replace"
    then dispatch id (cancel id (lookup id w.running_tasks) w)
    else dispatch id w

unfoldable pub is_due : Schedule → Bool → ℕ → Bool
unfolding missed_since
is_due s starting moment =
    schedule_matches s.cron moment
    || starting
      && (s.missed_run_policy == "run_once" && missed_since s.cron s.last_claim_marker moment)

-- One round of the loop over the schedules; without a store every claim is granted.
unfoldable pub consider : (String → ℕ → Bool) → Bool → ℕ → Schedule → Worker → Worker
unfolding is_due overlap dispatch
consider claim starting moment s w =
    if s.enabled && is_due s starting moment && claim s.id moment
    then (if contains w.running s.id then overlap s.concurrency_policy s.id w else dispatch s.id w)
    else w

unfoldable pub consider_all : (String → ℕ → Bool) → Bool → ℕ → List Schedule → Worker → Worker
unfolding consider
consider_all claim starting moment [] w = w
consider_all claim starting moment (s ∷ ss) w =
    consider_all claim starting moment ss (consider claim starting moment s w)

abbrev is_minute : ℕ → Option ℕ → Bool
is_minute moment none = false
is_minute moment (some m) = eqb m moment

abbrev is_first : Option ℕ → Bool
is_first none = true
is_first (some m) = false

-- `tick`, for the schedules that `list_schedules` returns; what it returns is by how much `next_task`
-- has grown
unfoldable pub tick : (String → ℕ → Bool) → ℕ → List Schedule → Worker → Worker
unfolding consider_all
tick claim moment schedules w =
    if is_minute moment w.last_minute
    then w
    else consider_all claim (is_first w.last_minute) moment schedules
        (record w { last_minute = some moment })
