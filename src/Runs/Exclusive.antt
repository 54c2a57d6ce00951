-- ===== src/Runs/Exclusive.antt =====
-- Two workers never hold one run at the same time.
use sdp_studio.Prelude.{
  ℕ, ◌≤◌, String, ◌≡◌, ◌≢◌, refl, sym, ap, ◌∙◌, subst, Bool, Bool-cases, inl, inr, true, false,
  ◌&&◌, List, [], ◌∷◌, count, eqb, Option, Option-cases, some, if◌then◌else◌, arith, ◌==◌, eq_refl,
}
use sdp_studio.Runs.Store.{Run, Store, find_run, update_where}
use sdp_studio.Runs.Claims.{
  blank_worker, nothing, claimed, is_claimable, cutoff, take_claim, is_blank, oldest,
  claim_candidate, claim_run,
}
use sdp_studio.Runs.Rows.{IsKeyed, find_run-update_where, find_run-id}
use sdp_studio.Runs.Operations.{Operation, claim, perform, perform_all, throughout}
use sdp_studio.Runs.Moves.{perform-IsKeyed}
use sdp_studio.Runs.Lease.{IsHeld, respects, perform-Keeps, held_blocks}
use sdp_studio.Runs.Oldest.{IsOldest, oldest-IsOldest}

blank_no : {A : Type 0} {r : Run} → blank_worker ≡ claimed r → A
blank_no h = cc

nothing_no : {A : Type 0} {r : Run} → nothing ≡ claimed r → A
nothing_no h = cc

claimed_row : {r s : Run} → claimed r ≡ claimed s → r ≡ s
claimed_row h = cc

some_row : {r s : Run} → some r ≡ some s → r ≡ s
some_row h = cc

false-true : ¬ (false ≡ true)
false-true = λ h. cc

-- What the claim of a candidate returns.
claim_candidate-taken :
    (c : Run) (token : String) (now before : ℕ) (runs : List Run) (r : Run)
    → find_run c.id runs ≡ some c
    → is_claimable before c ≡ true
    → (claim_candidate c token now before runs).0 ≡ claimed r
    → (r.id ≡ c.id)
      × IsHeld token now r
      × (find_run r.id (claim_candidate c token now before runs).1 ≡ some r)
unfolding claim_candidate
claim_candidate-taken c token now before runs r listed free h =
    let p : Run → Bool = λ x. x.id == c.id && is_claimable before x in
    let hit : p c ≡ true = ground (arith, eq_refl c.id) in
    let updated : Option Run = find_run c.id (update_where p (take_claim token now) runs) in
    let row : updated ≡ some (take_claim token now c) =
      find_run-update_where p (take_claim token now) c.id runs c (λ x. refl) listed
      ∙ ap (λ (b : Bool). some (if b then take_claim token now c else c)) hit in
    elim (Bool-cases (eqb (count p runs) 1)) [
      | inl one ↦
          subst
            (λ (x : Run).
              (x.id ≡ c.id)
              × IsHeld token now x
              × (find_run x.id (claim_candidate c token now before runs).1 ≡ some x))
            (claimed_row (rw (one, row) at h))
            (
              refl,
              record { holder = refl; beat = now; recent = refl; later = omega arith },
              rw one row,
            )
      | inr off ↦ nothing_no (rw off at h)
    ]

-- A claim that returns a run returns the oldest claimable one of the table, and leaves it held with
-- the token of the claim.
pub claim_run-IsOldest :
    (worker_id token : String) (lease_seconds now : ℕ) (runs : List Run) (r : Run)
    → IsKeyed runs
    → (claim_run worker_id token lease_seconds now runs).0 ≡ claimed r
    → (c : Run) × IsOldest (is_claimable (cutoff now lease_seconds)) runs c
      × (r.id ≡ c.id)
      × IsHeld token now r
      × (find_run r.id (claim_run worker_id token lease_seconds now runs).1 ≡ some r)
unfolding claim_run
claim_run-IsOldest worker_id token lease_seconds now runs r keyed h =
    elim (Bool-cases (is_blank worker_id)) [
      | inl blank ↦ blank_no (rw blank at h)
      | inr named ↦ elim (Option-cases (oldest (is_claimable (cutoff now lease_seconds)) runs)) [
        | inl idle ↦ nothing_no (rw (named, idle) at h)
        | inr (c, found) ↦
            let best = oldest-IsOldest (is_claimable (cutoff now lease_seconds)) runs c found in
            let (q, held, row) =
              claim_candidate-taken c token now (cutoff now lease_seconds) runs r
                (keyed.first c best.listed) best.holds (rw (named, found) at h) in
            (c, best, q, held, rw (named, found) row)
      ]
    ]

all_kept :
    (id token : String) (since : ℕ) (ops : List Operation) (s : Store) (r : Run)
    → throughout (respects id token since) ops s ≡ true
    → IsKeyed s.runs
    → find_run id s.runs ≡ some r
    → IsHeld token since r
    → (r' : Run) × (find_run id (perform_all ops s).runs ≡ some r')
      × IsHeld token since r'
      × IsKeyed (perform_all ops s).runs
unfolding throughout
all_kept id token since [] s r fair keyed h held = (r, h, held, keyed)
all_kept id token since (op ∷ ops) s r fair keyed h held =
    let (m, found, keeps) = perform-Keeps id token since op s r (ground arith) keyed h in
    all_kept id token since ops (perform op s) m (ground arith) (perform-IsKeyed op s keyed) found
      (keeps (find_run-id id s.runs r h) held)

not_claimed :
    (id token : String) (since : ℕ) (runs : List Run) (r : Run)
    → IsKeyed runs
    → find_run id runs ≡ some r
    → IsHeld token since r
    → (worker_id other : String) (lease_seconds now : ℕ) → cutoff now lease_seconds ≤ since
    → (c : Run) → (claim_run worker_id other lease_seconds now runs).0 ≡ claimed c
    → c.id ≢ id
not_claimed id token since runs r keyed h held worker_id other lease_seconds now soon c e = λ same.
    let (d, best, q, _, _) = claim_run-IsOldest worker_id other lease_seconds now runs c keyed e in
    let at_id : d.id ≡ id = sym q ∙ same in
    let is_r : some d ≡ some r =
      sym (keyed.first d best.listed) ∙ ap (λ i. find_run i runs) at_id ∙ h in
    let taken = held_blocks token since (cutoff now lease_seconds) r soon held in
    false-true
      (sym taken ∙ ap (is_claimable (cutoff now lease_seconds)) (sym (some_row is_r)) ∙ best.holds)

module _ (worker_id token : String) (lease_seconds since : ℕ) (s : Store) (r : Run)
    (keyed : IsKeyed s.runs)
    (taken : (claim_run worker_id token lease_seconds since s.runs).0 ≡ claimed r)
    (ops : List Operation)
    (fair : throughout
        (respects r.id token since)
        ops
        (perform (claim worker_id token lease_seconds since) s)
      ≡ true) where
  abbrev afterwards : Store
  afterwards = perform_all (claim worker_id token lease_seconds since ∷ ops) s

  still-IsHeld :
      (r' : Run) × (find_run r.id afterwards.runs ≡ some r')
      × IsHeld token since r'
      × IsKeyed afterwards.runs
  unfolding perform
  still-IsHeld =
      let first : Operation = claim worker_id token lease_seconds since in
      let (c, best, q, held, row) =
        claim_run-IsOldest worker_id token lease_seconds since s.runs r keyed taken in
      all_kept r.id token since ops (perform first s) r fair (perform-IsKeyed first s keyed) row
        held

  -- After a worker claims a run at `since`, let any operations follow in which claims are made
  -- within the lease (their cutoff is not after `since`), heartbeats not before `since`, nobody
  -- releases the run with the worker's token, updates leave the token and the heartbeat alone and the
  -- run's project is not deleted. Then the run stands in the table with the worker's token and a heartbeat of `since` or later.
  pub claim_run-IsHeld :
      (r' : Run) × (find_run r.id afterwards.runs ≡ some r') × IsHeld token since r'
  claim_run-IsHeld = let (r', found, held, _) = still-IsHeld in (r', found, held)

  -- After a worker claims a run at `since`, let any operations follow in which claims are made
  -- within the lease (their cutoff is not after `since`), heartbeats not before `since`, nobody
  -- releases the run with the worker's token, updates leave the token and the heartbeat alone, and
  -- the run's project is not deleted. Then a second claim within the lease never returns that run.
  pub claim_run-exclusive :
      (second other : String) (lease now : ℕ)
      → cutoff now lease ≤ since
      → (c : Run) → (claim_run second other lease now afterwards.runs).0 ≡ claimed c
      → c.id ≢ r.id
  claim_run-exclusive =
      let (r', found, held, keyed') = still-IsHeld in
      not_claimed r.id token since afterwards.runs r' keyed' found held
