-- ===== src/Runs/Ends.antt =====
-- Draining ends if each run that the executor finishes either waits still or is one less that waits.
use sdp_studio.Prelude.{
  subst, ℕ, zero, suc, ◌<◌, String, ◌≡◌, ◌≢◌, refl, sym, ap, ◌∙◌, Bool-cases, inl, inr, ◌⊎◌, true,
  false, List, [], ◌∷◌, ◌++◌, Option, none, some, arith,
}
use sdp_studio.Runs.Status.{queued, same_status}
use sdp_studio.Runs.Store.{Run, Store, find_run}
use sdp_studio.Runs.Claims.{
  Claim, blank_worker, nothing, claimed, is_claimable, cutoff, claim_run, release_run_claim,
}
use sdp_studio.Runs.Rows.{IsKeyed}
use sdp_studio.Runs.Edits.{Edit, Edit-find, Edit-IsKeyed, claim_run-Edit, release_run_claim-Edit}
use sdp_studio.Runs.Exclusive.{claim_run-IsOldest}
use sdp_studio.Runs.Worker.{
  Executor, Poll, idle, returned, raised, invalid_worker, token_of, outcome, settle, interrupted,
  Ending, finished, raises, cancelled, execute, after_claim, poll_once_async, Drained, out_of_fuel,
  goes_on, after_run, after_poll, drain_async,
}
use sdp_studio.Runs.Drain.{waiting, claim_run-waiting, release_run_claim-waiting}

-- An executor keeps the primary key, and when it ends without an exception on a run that waits, the
-- run waits still or fewer runs wait than before.
pub record IsSettling (executor : Executor) : Type 0 where
  pub keyed : (r : Run) (s : Store) → IsKeyed s.runs → IsKeyed (executor r s).1.runs
  pub settles :
      (r : Run) (s : Store)
      → find_run r.id s.runs ≡ some r
      → same_status r.status queued ≡ true
      → (executor r s).0 ≡ finished
      → ((row : Run) × (find_run r.id (executor r s).1.runs ≡ some row)
          × (same_status row.status queued ≡ true))
        ⊎ (waiting (executor r s).1.runs < waiting s.runs)

abbrev SameStatus : Run → Run → Type 0
SameStatus r s = s.status ≡ r.status

row_same : {x y : Run} → some x ≡ some y → x ≡ y
row_same h = cc

claimable_queued :
    (before : ℕ) (r : Run) → is_claimable before r ≡ true → same_status r.status queued ≡ true
unfolding is_claimable
claimable_queued before r h = ground arith

module _ (worker_id token : String) (lease_seconds now : ℕ) (runs : List Run)
    (keyed : IsKeyed runs) where
  abbrev table : List Run
  table = (claim_run worker_id token lease_seconds now runs).1

  claim-Edit : Edit SameStatus runs table
  claim-Edit = claim_run-Edit SameStatus worker_id token lease_seconds now runs (λ r h. refl)

  table-IsKeyed : IsKeyed table
  table-IsKeyed = Edit-IsKeyed SameStatus runs table claim-Edit keyed

  -- A claimed run waits.
  claimed_row :
      (r : Run)
      → (claim_run worker_id token lease_seconds now runs).0 ≡ claimed r
      → (find_run r.id table ≡ some r) × (same_status r.status queued ≡ true)
  claimed_row r h =
      let (c, best, q, held, row) =
        claim_run-IsOldest worker_id token lease_seconds now runs r keyed h in
      let (r', found, same) =
        Edit-find SameStatus runs table claim-Edit (λ x. refl) c.id c (keyed.first c best.listed) in
      let is_r = row_same (sym found ∙ ap (λ i. find_run i table) (sym q) ∙ row) in
      let status_same = sym (ap (λ (y : Run). y.status) is_r) ∙ same in
      (
        row,
        ap (λ t. same_status t queued) status_same
            ∙ claimable_queued (cutoff now lease_seconds) c best.holds,
      )

returned_parts : (e : Ending) (c r : Run) → outcome e c ≡ returned r → (e ≡ finished) × (c ≡ r)
returned_parts finished c r h = (refl, cc)
returned_parts raises c r h = cc
returned_parts cancelled c r h = cc

release-Edit :
    (r : Run) (runs : List Run) → Edit SameStatus runs (release_run_claim r.id (token_of r) runs).1
release-Edit r runs = release_run_claim-Edit SameStatus r.id (token_of r) runs (λ x a b. refl)

-- A round ends if the next one does.
module _ (go : List Run → Store → Drained × Store) (done : List Run) where
  after_run-ends :
      (r : Run) (o : Option Run) (s : Store)
      → ((row : Run)
          → o ≡ some row
          → same_status row.status queued ≡ false
          → (more : List Run) → (go more s).0 ≢ out_of_fuel)
      → (after_run go done r o s).0 ≢ out_of_fuel
  unfolding after_run
  after_run-ends r none s next = λ e. cc
  after_run-ends r (some row) s next = elim (Bool-cases (same_status row.status queued)) [
    | inl waits ↦ rw waits (λ e. cc)
    | inr gone ↦ rw gone (next row refl gone (done ++ r ∷ []))
  ]

  after_poll-ends :
      (q : Poll) (s : Store)
      → ((r row : Run)
          → q ≡ returned r
          → find_run r.id s.runs ≡ some row
          → same_status row.status queued ≡ false
          → (more : List Run) → (go more s).0 ≢ out_of_fuel)
      → (after_poll go done q s).0 ≢ out_of_fuel
  unfolding after_poll
  after_poll-ends idle s next = λ e. cc
  after_poll-ends invalid_worker s next = λ e. cc
  after_poll-ends (raised r) s next = λ e. cc
  after_poll-ends (interrupted r) s next = λ e. cc
  after_poll-ends (returned r) s next =
      after_run-ends r (find_run r.id s.runs) s (λ row at_row. next r row refl at_row)

module _ (executor : Executor) (fine : IsSettling executor) where
  -- What a poll that returns a run leaves.
  executed :
      (c r : Run) (s : Store)
      → IsKeyed s.runs
      → find_run c.id s.runs ≡ some c
      → same_status c.status queued ≡ true
      → (execute executor c s).0 ≡ returned r
      → (row : Run) → find_run r.id (execute executor c s).1.runs ≡ some row
      → same_status row.status queued ≡ false
      → IsKeyed (execute executor c s).1.runs
        × (waiting (execute executor c s).1.runs < waiting s.runs)
  unfolding execute
  executed c r s keyed found waits h row at_row gone =
      let after = (executor c s).1.runs in
      let (quiet, same) = returned_parts (executor c s).0 c r h in
      let settled = ap (λ e. (settle e c (executor c s).1).runs) quiet in
      let edit = release-Edit c after in
      let left = release_run_claim-waiting c.id (token_of c) after in
      subst (λ rows. IsKeyed rows × (waiting rows < waiting s.runs)) (sym settled)
        (
          Edit-IsKeyed SameStatus after _ edit (fine.keyed c s keyed),
          elim (fine.settles c s found waits quiet) [
            | inr fewer ↦ omega (arith, left)
            | inl (old, here, queued_still) ↦
                let (new, there, status_same) =
                  Edit-find SameStatus after _ edit (λ x. refl) c.id old here in
                let is_row = row_same (
                  sym there
                  ∙ ap (λ (z : Run). find_run z.id (release_run_claim c.id (token_of c) after).1)
                      same
                  ∙ ap (find_run r.id) (sym settled)
                  ∙ at_row) in
                ground (
                  arith,
                  ap (λ (y : Run). same_status y.status queued) is_row,
                  ap (λ t. same_status t queued) status_same,
                )
          ],
        )

  polled :
      (c : Claim) (s : Store) (r : Run)
      → IsKeyed s.runs
      → ((x : Run)
          → c ≡ claimed x
          → (find_run x.id s.runs ≡ some x) × (same_status x.status queued ≡ true))
      → (after_claim (execute executor) c s).0 ≡ returned r
      → (row : Run) → find_run r.id (after_claim (execute executor) c s).1.runs ≡ some row
      → same_status row.status queued ≡ false
      → IsKeyed (after_claim (execute executor) c s).1.runs
        × (waiting (after_claim (execute executor) c s).1.runs < waiting s.runs)
  unfolding after_claim
  polled blank_worker s r keyed info h row at_row gone = cc
  polled nothing s r keyed info h row at_row gone = cc
  polled (claimed c) s r keyed info h row at_row gone =
      let (found, waits) = info c refl in executed c r s keyed found waits h row at_row gone

  module _ (worker_id : String) (tokens : ℕ → String) (clock : ℕ → ℕ) (lease_seconds : ℕ)
      (limit : Option ℕ) where
    abbrev poll : ℕ → Store → Poll × Store
    poll n s = poll_once_async executor worker_id (tokens n) lease_seconds (clock n) s

    poll_fewer :
        (n : ℕ) (s : Store) (r row : Run)
        → IsKeyed s.runs
        → (poll n s).0 ≡ returned r
        → find_run r.id (poll n s).1.runs ≡ some row
        → same_status row.status queued ≡ false
        → IsKeyed (poll n s).1.runs × (waiting (poll n s).1.runs < waiting s.runs)
    unfolding poll_once_async
    poll_fewer n s r row keyed h at_row gone =
        let c = claim_run worker_id (tokens n) lease_seconds (clock n) s.runs in
        let (still, fewer) =
          polled c.0 (record s { runs = c.1 }) r
            (table-IsKeyed worker_id (tokens n) lease_seconds (clock n) s.runs keyed)
            (claimed_row worker_id (tokens n) lease_seconds (clock n) s.runs keyed) h row at_row
            gone in
        (
          still,
          omega
              (arith, fewer, claim_run-waiting worker_id (tokens n) lease_seconds (clock n) s.runs),
        )

    -- On a store of distinct run ids, with an executor that keeps them and after which the run that it
    -- finished waits still or fewer runs wait: `drain_async` ends, with or without a limit, once it
    -- may take more rounds than runs wait.
    pub drain_async-ends :
        (fuel n : ℕ) (done : List Run) (s : Store)
        → IsKeyed s.runs
        → waiting s.runs < fuel
        → (drain_async executor worker_id tokens clock lease_seconds limit fuel n done s).0
          ≢ out_of_fuel
    unfolding drain_async
    drain_async-ends zero n done s keyed h = absurd (omega arith)
    drain_async-ends (suc fuel) n done s keyed h = elim (Bool-cases (goes_on limit done)) [
      | inr full ↦ rw full (λ e. cc)
      | inl on ↦ rw on (
          after_poll-ends
            (drain_async executor worker_id tokens clock lease_seconds limit fuel (suc n)) done
            (poll n s).0 (poll n s).1
            (λ r row returns at_row gone more.
              let (still, fewer) = poll_fewer n s r row keyed returns at_row gone in
              drain_async-ends fuel (suc n) more (poll n s).1 still (omega (arith, fewer))))
    ]
