-- ===== src/Runs/Worker.antt =====
-- `DurableRunWorker` of python/sdpstudio_server/run_worker.py on the store. The executor is a
-- parameter: how it ends, and the store after it and the heartbeats that run beside it.
use sdp_studio.Prelude.{
  ℕ, zero, suc, String, Bool, true, List, [], ◌∷◌, ◌++◌, length, ltb, Option, none, some,
  if◌then◌else◌,
}
use sdp_studio.Runs.Status.{queued, same_status}
use sdp_studio.Runs.Store.{Run, Store, find_run}
use sdp_studio.Runs.Claims.{Claim, blank_worker, nothing, claimed, claim_run, release_run_claim}

-- How a call of the executor ends: it returns, raises an `Exception`, or is left by a `BaseException`
-- that is none, as a cancelled task is by `CancelledError`.
pub data Ending : Type 0 where
  finished raises cancelled : Ending

abbrev pub Executor : Type 0
Executor = Run → Store → Ending × Store

-- What a poll does: nothing to run, a run that it returns, an exception or a cancellation that it
-- passes on, or the `ValueError` of a worker without a name.
pub data Poll : Type 0 where
  idle : Poll
  returned : Run → Poll
  raised : Run → Poll
  interrupted : Run → Poll
  invalid_worker : Poll

-- `str(claimed["claim_token"])`
abbrev pub token_of : Run → String
token_of r = elim r.claim_token [ none ↦ "None" | some t ↦ t ]

abbrev pub give_back : Run → Store → Store
give_back r s = record s { runs = (release_run_claim r.id (token_of r) s.runs).1 }

abbrev pub outcome : Ending → Run → Poll
outcome finished r = returned r
outcome raises r = raised r
outcome cancelled r = interrupted r

-- `except Exception`, and the end of `poll_once_async`
abbrev pub settle : Ending → Run → Store → Store
settle finished r s = give_back r s
settle raises r s = give_back r s
settle cancelled r s = s

-- The claimed run, after it was executed: the claim is given back unless the task was cancelled.
unfoldable pub execute : Executor → Run → Store → Poll × Store
execute executor r s = let e = executor r s in (outcome e.0 r, settle e.0 r e.1)

-- `poll_once`, where the claim is given back only if the executor raised an `Exception`
abbrev pub settle_once : Ending → Run → Store → Store
settle_once finished r s = s
settle_once raises r s = give_back r s
settle_once cancelled r s = s

unfoldable pub execute_once : Executor → Run → Store → Poll × Store
execute_once executor r s = let e = executor r s in (outcome e.0 r, settle_once e.0 r e.1)

-- The claim of a poll and what follows it.
unfoldable pub after_claim : (Run → Store → Poll × Store) → Claim → Store → Poll × Store
after_claim run blank_worker s = (invalid_worker, s)
after_claim run nothing s = (idle, s)
after_claim run (claimed r) s = run r s

unfoldable pub poll_once : Executor → String → String → ℕ → ℕ → Store → Poll × Store
unfolding claim_run execute_once after_claim
poll_once executor worker_id token lease_seconds now s =
    let c = claim_run worker_id token lease_seconds now s.runs in
    after_claim (execute_once executor) c.0 (record s { runs = c.1 })

unfoldable pub poll_once_async : Executor → String → String → ℕ → ℕ → Store → Poll × Store
unfolding claim_run execute after_claim
poll_once_async executor worker_id token lease_seconds now s =
    let c = claim_run worker_id token lease_seconds now s.runs in
    after_claim (execute executor) c.0 (record s { runs = c.1 })

-- The result of `drain_async`.
pub data Drained : Type 0 where
  completed : List Run → Drained
  failed : Run → Drained
  stopped : Run → Drained
  missing_run : String → Drained
  no_worker : Drained
  out_of_fuel : Drained

-- `limit is None or len(completed) < limit`
abbrev pub goes_on : Option ℕ → List Run → Bool
goes_on none done = true
goes_on (some limit) done = ltb (length done) limit

-- What `get_run` finds after a run was finished: a run that is still queued ends the loop.
unfoldable pub after_run :
    (List Run → Store → Drained × Store) → List Run → Run → Option Run → Store → Drained × Store
after_run go done r none s = (missing_run r.id, s)
after_run go done r (some row) s =
    if same_status row.status queued then (completed (done ++ r ∷ []), s) else go (done ++ r ∷ []) s

-- One round of the loop, after its poll; `go` is the next round.
unfoldable pub after_poll :
    (List Run → Store → Drained × Store) → List Run → Poll → Store → Drained × Store
unfolding find_run after_run
after_poll go done idle s = (completed done, s)
after_poll go done invalid_worker s = (no_worker, s)
after_poll go done (raised r) s = (failed r, s)
after_poll go done (interrupted r) s = (stopped r, s)
after_poll go done (returned r) s = after_run go done r (find_run r.id s.runs) s

module _ (executor : Executor) (worker_id : String) (tokens : ℕ → String) (clock : ℕ → ℕ)
    (lease_seconds : ℕ) (limit : Option ℕ) where
  -- The loop of `drain_async`. Its `n`th round claims with the token `tokens n` at the time
  -- `clock n`.
  unfoldable pub drain_async : ℕ → ℕ → List Run → Store → Drained × Store
  unfolding poll_once_async after_poll
  drain_async zero n done s = if goes_on limit done then (out_of_fuel, s) else (completed done, s)
  drain_async (suc fuel) n done s =
      if goes_on limit done
      then (let p = poll_once_async executor worker_id (tokens n) lease_seconds (clock n) s in
          after_poll (drain_async fuel (suc n)) done p.0 p.1)
      else (completed done, s)
