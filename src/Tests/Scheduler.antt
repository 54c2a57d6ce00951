-- ===== src/Tests/Scheduler.antt =====
-- Runs of the scheduler on two schedules, and the theorems on them at concrete inputs.
use sdp_studio.Prelude.{
  List, arith, ℕ, ◌+◌, ◌≤◌, String, Bool, true, false, [], ◌∷◌, none, some, Memᴰ, ◌≡◌, refl,
  contains, if◌then◌else◌,
}
use sdp_studio.Prelude.Dict.{lookup, insert}
use sdp_studio.Scheduler.{Schedule, Worker, next_fire, consider, tick, dispatch_finished}
use sdp_studio.Scheduler.Clock.{schedule_matches, words}
use sdp_studio.Scheduler.Search.{Finds, next_fire-first}
use sdp_studio.Scheduler.Store.{
  create_schedule, update_schedule, delete_schedule, claim_schedule, enabled, concurrency_policy,
  stored, deleted, invalid,
}
use sdp_studio.Scheduler.Claims.{Request, claim, update, grants, ascending, claim_schedule-once}
use sdp_studio.Scheduler.Overlap.{considers, begin, step, live_of, one_dispatch_per_schedule}

abbrev nightly : Schedule
nightly = record {
  id = "n";
  project_id = "p";
  name = "nightly";
  timezone = "UTC";
  runtime_profile_id = none;
  mode = "incremental";
  cron = "30 6 * * *";
  enabled = true;
  missed_run_policy = "run_once";
  concurrency_policy = "replace";
  last_claim_marker = some 28486469;
}

abbrev lax : Schedule
lax = record nightly { id = "l"; concurrency_policy = "queue" }

abbrev idle : Worker
idle = record { last_minute = none; running = []; running_tasks = []; live = []; next_task = 0 }

abbrev granted : String → ℕ → Bool
granted id moment = true

-- The minute 28486470 is 6:30, and 28487910 the same time on the next day.
abbrev once : Worker
once = consider granted false 28486470 nightly idle

abbrev again : Worker
again = consider granted false 28487910 nightly once

again_live : again.live ≡ (1, "n") ∷ []
unfolding consider schedule_matches lookup insert
again_live = refl

-- Within one minute only the first tick counts.
tick_twice :
    (tick granted 28486470 (nightly ∷ []) (tick granted 28486470 (nightly ∷ []) idle)).live
    ≡ (0, "n") ∷ []
unfolding tick schedule_matches
tick_twice = refl

-- At the start a run that was missed is made up for; later a minute that does not match is passed over.
tick_missed : (tick granted 28486475 (nightly ∷ []) idle).live ≡ (0, "n") ∷ []
unfolding tick schedule_matches
tick_missed = refl

tick_later :
    (tick granted 28486476 (nightly ∷ []) (tick granted 28486475 (lax ∷ []) idle)).live
    ≡ (0, "l") ∷ []
unfolding tick schedule_matches
tick_later = refl

-- A policy that `create_schedule` refuses and `update_schedule` writes: dispatches overlap, and the
-- end of the first takes the mark away that stands for the second.
abbrev overlapping : Worker
overlapping = consider granted false 28487910 lax (consider granted false 28486470 lax idle)

overlapping_live : overlapping.live ≡ (1, "l") ∷ (0, "l") ∷ []
unfolding consider schedule_matches
overlapping_live = refl

untracked : contains (dispatch_finished 0 "l" overlapping).running "l" ≡ false
unfolding consider dispatch_finished schedule_matches
untracked = refl

next_morning : next_fire "30 6 * * *" 28487900 ≡ some 28487910
unfolding next_fire schedule_matches
next_morning = refl

-- What two servers and an editor ask in turn.
abbrev requests : List Request
requests = claim "n" 10 ∷ claim "n" 10 ∷ update "n" (enabled true ∷ []) ∷ claim "n" 11 ∷ []

-- A server whose clock is behind is granted a minute that was granted before.
lagging : grants "n" 10 (claim "n" 10 ∷ claim "n" 11 ∷ claim "n" 10 ∷ []) (nightly ∷ []) ≡ 2
unfolding grants claim_schedule
lagging = refl

refused_policy : create_schedule ("p" ∷ []) lax [] ≡ (invalid, [])
unfolding create_schedule words
refused_policy = refl

accepted_policy :
    (update_schedule "n" (concurrency_policy "queue" ∷ []) (nightly ∷ [])).0
    ≡ stored (record nightly { concurrency_policy = "queue" })
unfolding update_schedule
accepted_policy = refl

gone : delete_schedule "n" (nightly ∷ []) ≡ (deleted, [])
unfolding delete_schedule
gone = refl

upward : ascending "n" 0 requests ≡ true
unfolding ascending
upward = refl

claim_schedule-once_example : grants "n" 10 requests (nightly ∷ []) ≤ 1
claim_schedule-once_example =
    claim_schedule-once "n" 10 0 requests (nightly ∷ []) (omega arith) upward

next_fire-first_example :
    Finds
      (schedule_matches "30 6 * * *")
      28487901
      (28487901 + 527040)
      (next_fire "30 6 * * *" 28487900)
next_fire-first_example = next_fire-first "30 6 * * *" 28487900

one_dispatch_per_schedule_example :
    (live_of again "n" ≤ 1)
    × (live_of again "n" ≡ (if contains again.running "n" then 1 else 0))
    × ((task : ℕ) → Memᴰ (task, "n") again.live → lookup "n" again.running_tasks ≡ some task)
one_dispatch_per_schedule_example = one_dispatch_per_schedule granted again "n" (
    step (step (begin idle refl refl) (considers false 28486470 nightly refl))
      (considers false 28487910 nightly refl))
