-- ===== src/Tests/Runs.antt =====
-- A queued run that two workers want, and the recovery after a restart.
use sdp_studio.Prelude.{
  Memᴰ, ℕ, ◌≤◌, String, ◌≡◌, ◌≢◌, refl, true, not, List, [], ◌∷◌, none, some, contains, ◌++◌, drop,
  arith,
}
use sdp_studio.Runs.Status.{
  RunStatus, created, queued, preparing, validating, submitting, collecting_artifacts, running,
  succeeded, cancelled, is_terminal,
}
use sdp_studio.Runs.Life.{History}
use sdp_studio.Runs.Store.{Run, RunEvent, Store, find_run, create_run}
use sdp_studio.Runs.Claims.{claimed, is_claimable, cutoff, claim_run}
use sdp_studio.Runs.Recovery.{add_run_event, run_events, reconcile_non_terminal_runs}
use sdp_studio.Runs.Rows.{IsKeyed}
use sdp_studio.Runs.Journal.{log, IsNumbered, done, add_run_event-IsNumbered, run_events_exact}
use sdp_studio.Runs.Lost.{reconcile_non_terminal_runs-terminal, create_run-IsKeyed}
use sdp_studio.Runs.Operations.{
  create, is_disciplined, perform, Operation, transition, claim, heartbeat, release, reconcile,
  perform_all, throughout, delete,
}
use sdp_studio.Runs.Stages.{Reaches, perform_all-stages}
use sdp_studio.Runs.Moves.{perform_all-History, perform_all-terminal}
use sdp_studio.Runs.Lease.{IsHeld, respects}
use sdp_studio.Runs.Oldest.{IsOldest}
use sdp_studio.Runs.Exclusive.{claim_run-IsOldest, claim_run-exclusive}

abbrev waiting : String → RunStatus → ℕ → Run
waiting id s at_time = record {
  id = id;
  project_id = "p";
  status = s;
  created_at = at_time;
  started_at = none;
  finished_at = none;
  exit_code = none;
  error = none;
  claim_token = none;
  claimed_at = none;
  heartbeat_at = none;
}

abbrev late : Run
late = waiting "late" queued 20

abbrev early : Run
early = waiting "early" queued 10

abbrev ended : Run
ended = waiting "ended" succeeded 5

abbrev store : Store
store = record { runs = late ∷ early ∷ ended ∷ []; run_events = [] }

abbrev empty : Store
empty = record { runs = []; run_events = [] }

empty-IsKeyed : IsKeyed empty.runs
empty-IsKeyed = record { first = λ r m. elim m [ ] }

store-IsKeyed : IsKeyed store.runs
unfolding create_run
store-IsKeyed =
    create_run-IsKeyed ended (create_run early (create_run late empty)) (
      create_run-IsKeyed early (create_run late empty)
        (create_run-IsKeyed late empty empty-IsKeyed))

abbrev taken : Run
taken = record early { claim_token = some "w:1"; claimed_at = some 100; heartbeat_at = some 100 }

-- The run that waits longest is claimed.
claims_early : (claim_run "w" "w:1" 60 100 store.runs).0 ≡ claimed taken
unfolding claim_run
claims_early = refl

-- A second worker gets the other run, and its heartbeat and a failed release change nothing here.
abbrev meanwhile : List Operation
meanwhile =
    claim "v" "v:1" 60 200
    ∷ heartbeat "early" "w:1" 300
    ∷ release "early" "v:1"
    ∷ transition "late" preparing [] store.runs
    ∷ []

claim_run-IsOldest_example :
    (c : Run) × IsOldest (is_claimable (cutoff 100 60)) store.runs c
    × ("early" ≡ c.id)
    × IsHeld "w:1" 100 taken
    × (find_run "early" (claim_run "w" "w:1" 60 100 store.runs).1 ≡ some taken)
claim_run-IsOldest_example =
    claim_run-IsOldest "w" "w:1" 60 100 store.runs taken store-IsKeyed claims_early

-- The run that another worker gets once it is queued anew.
abbrev fresh_run : Run
fresh_run = waiting "fresh" queued 400

abbrev fresh_taken : Run
fresh_taken = record fresh_run {
  claim_token = some "v:2";
  claimed_at = some 500;
  heartbeat_at = some 500;
}

abbrev with_fresh : List Operation
with_fresh = meanwhile ++ create fresh_run ∷ []

with_fresh_fair :
    throughout (respects "early" "w:1" 100) with_fresh (perform (claim "w" "w:1" 60 100) store)
    ≡ true
unfolding throughout respects perform
with_fresh_fair = refl

claims_fresh :
    (claim_run "v" "v:2" 60 500 (perform_all (claim "w" "w:1" 60 100 ∷ with_fresh) store).runs).0
    ≡ claimed fresh_taken
unfolding claim_run perform
claims_fresh = refl

claim_run-exclusive_example : fresh_taken.id ≢ early.id
claim_run-exclusive_example =
    claim_run-exclusive "w" "w:1" 60 100 store taken store-IsKeyed claims_early with_fresh
      with_fresh_fair "v" "v:2" 60 500 (omega arith) fresh_taken claims_fresh

abbrev steps : List Operation
steps = transition "early" preparing [] store.runs ∷ delete "q" ∷ reconcile 900 ∷ []

steps_fair : throughout (is_disciplined "early") steps store ≡ true
unfolding throughout is_disciplined perform
steps_fair = refl

ended_fair : throughout (is_disciplined "ended") steps store ≡ true
unfolding throughout is_disciplined perform
ended_fair = refl

-- A cancellation between the two halves of another transition is lost: a status that was terminal
-- is left again.
abbrev crossing : List Operation
crossing =
    transition "early" cancelled [] store.runs ∷ transition "early" preparing [] store.runs ∷ []

crossing_lost :
    find_run "early" (perform_all crossing store).runs ≡ some (record early { status = preparing })
unfolding perform
crossing_lost = refl

-- The runs of a deleted project are gone.
deleted_runs : (perform (delete "p") store).runs ≡ []
unfolding perform
deleted_runs = refl

early_row : find_run "early" store.runs ≡ some early
unfolding find_run
early_row = refl

ended_row : find_run "ended" store.runs ≡ some ended
unfolding find_run
ended_row = refl

perform_all-History_example :
    (r' : Run) × (n : ℕ) × (find_run "early" (perform_all steps store).runs ≡ some r')
    × History queued r'.status n
    × (n ≤ 7)
perform_all-History_example =
    perform_all-History steps store "early" early steps_fair store-IsKeyed early_row

perform_all-terminal_example :
    (r' : Run) × (find_run "ended" (perform_all steps store).runs ≡ some r')
    × (r'.status ≡ succeeded)
perform_all-terminal_example =
    perform_all-terminal steps store "ended" ended ended_fair store-IsKeyed ended_row
      (unfold is_terminal in refl)

reconcile_non_terminal_runs-terminal_example :
    (contains (reconcile_non_terminal_runs 900 store).0 "early" ≡ not (is_terminal queued))
    × (r' : Run) × (find_run "early" (reconcile_non_terminal_runs 900 store).1.runs ≡ some r')
    × (is_terminal r'.status ≡ true)
reconcile_non_terminal_runs-terminal_example =
    reconcile_non_terminal_runs-terminal 900 store "early" early store-IsKeyed early_row

-- A run that is created and taken through every stage.
abbrev new_run : Run
new_run = waiting "new" created 1

abbrev born : Store
born = record { runs = new_run ∷ []; run_events = [] }

abbrev stage_by_stage : RunStatus → RunStatus → Operation
stage_by_stage read target = transition "new" target [] (waiting "new" read 1 ∷ [])

abbrev full_life : List Operation
full_life =
    stage_by_stage created queued
    ∷ claim "w" "w:9" 60 5
    ∷ stage_by_stage queued preparing
    ∷ stage_by_stage preparing validating
    ∷ stage_by_stage validating submitting
    ∷ stage_by_stage submitting running
    ∷ stage_by_stage running collecting_artifacts
    ∷ stage_by_stage collecting_artifacts succeeded
    ∷ []

full_life_fair : throughout (is_disciplined "new") full_life born ≡ true
unfolding throughout is_disciplined perform
full_life_fair = refl

abbrev succeeded_run : Run
succeeded_run = record new_run {
  status = succeeded;
  claim_token = some "w:9";
  claimed_at = some 5;
  heartbeat_at = some 5;
}

full_life_ends : find_run "new" (perform_all full_life born).runs ≡ some succeeded_run
unfolding perform
full_life_ends = refl

born-IsKeyed : IsKeyed born.runs
unfolding create_run
born-IsKeyed = create_run-IsKeyed new_run empty empty-IsKeyed

new_row : find_run "new" born.runs ≡ some new_run
unfolding find_run
new_row = refl

perform_all-stages_example : Reaches full_life born "new" created
perform_all-stages_example =
    perform_all-stages full_life born "new" new_run succeeded_run created full_life_fair
      born-IsKeyed new_row refl full_life_ends refl (Memᴰ.head refl)

abbrev reported : List RunEvent
reported = (add_run_event "early" "status" "claimed" 100 []).1

nothing-IsNumbered : IsNumbered []
nothing-IsNumbered = λ id. done

reported-IsNumbered : IsNumbered reported
reported-IsNumbered = add_run_event-IsNumbered "early" "status" "claimed" 100 [] nothing-IsNumbered

run_events_exact_example :
    run_events "early" 1 (add_run_event "early" "log" "line" 101 reported).1
    ≡ drop 1 (log "early" (add_run_event "early" "log" "line" 101 reported).1)
run_events_exact_example =
    run_events_exact "early" 1 (add_run_event "early" "log" "line" 101 reported).1
      (add_run_event-IsNumbered "early" "log" "line" 101 reported reported-IsNumbered)
