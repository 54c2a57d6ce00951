-- ===== src/Runs/Drain.antt =====
-- A worker gives its claims back unless it is cancelled.
use sdp_studio.Prelude.{
  ℕ, String, ◌≡◌, refl, sym, ap, ◌∙◌, Bool, Bool-cases, inl, inr, false, ◌&&◌, List, [], ◌∷◌, count,
  eqb, Option, Option-cases, none, some, if◌then◌else◌, arith, ◌==◌, eq_iff,
}
use sdp_studio.Runs.Status.{queued, same_status}
use sdp_studio.Runs.Store.{Run, Store, find_run, update_where}
use sdp_studio.Runs.Claims.{
  Claim, blank_worker, nothing, claimed, is_claimable, cutoff, take_claim, is_blank, oldest,
  claim_candidate, claim_run, has_token, release_run_claim,
}
use sdp_studio.Runs.Rows.{KeepsId, find_run-update_where, find_run-id}
use sdp_studio.Runs.Worker.{
  Executor, Poll, idle, returned, raised, invalid_worker, token_of, outcome, settle, interrupted,
  Ending, finished, raises, cancelled, execute, after_claim, poll_once_async,
}

-- The runs that wait.
abbrev pub waiting : List Run → ℕ
waiting runs = count (λ r. same_status r.status queued) runs

count-update_where :
    (p : Run → Bool) (f : Run → Run) (runs : List Run)
    → ((r : Run) → (f r).status ≡ r.status)
    → waiting (update_where p f runs) ≡ waiting runs
unfolding update_where
count-update_where p f [] h = refl
count-update_where p f (r ∷ runs) h = elim (Bool-cases (p r)) [
  | inl hit ↦
      ground (arith, hit, ap (λ s. same_status s queued) (h r), count-update_where p f runs h)
  | inr miss ↦ ground (arith, miss, count-update_where p f runs h)
]

claim_candidate-waiting :
    (c : Run) (token : String) (now before : ℕ) (runs : List Run)
    → waiting (claim_candidate c token now before runs).1 ≡ waiting runs
unfolding claim_candidate
claim_candidate-waiting c token now before runs =
    let p : Run → Bool = λ r. r.id == c.id && is_claimable before r in
    let same = count-update_where p (take_claim token now) runs (λ r. refl) in
    elim (Bool-cases (eqb (count p runs) 1)) [ inl one ↦ rw one same | inr off ↦ rw off same ]

pub claim_run-waiting :
    (worker_id token : String) (lease_seconds now : ℕ) (runs : List Run)
    → waiting (claim_run worker_id token lease_seconds now runs).1 ≡ waiting runs
unfolding claim_run
claim_run-waiting worker_id token lease_seconds now runs = elim (Bool-cases (is_blank worker_id)) [
  | inl blank ↦ rw blank refl
  | inr named ↦ elim (Option-cases (oldest (is_claimable (cutoff now lease_seconds)) runs)) [
    | inl none_free ↦ rw (named, none_free) refl
    | inr (c, found) ↦
        rw (named, found) (claim_candidate-waiting c token now (cutoff now lease_seconds) runs)
  ]
]

pub release_run_claim-waiting :
    (id token : String) (runs : List Run)
    → waiting (release_run_claim id token runs).1 ≡ waiting runs
unfolding release_run_claim
release_run_claim-waiting id token runs =
    count-update_where (λ r. r.id == id && has_token token r.claim_token) _ runs (λ r. refl)

find_run-missing :
    (p : Run → Bool) (f : Run → Run) (id : String) (runs : List Run)
    → KeepsId f
    → find_run id runs ≡ none
    → find_run id (update_where p f runs) ≡ none
unfolding find_run update_where
find_run-missing p f id [] keeps h = refl
find_run-missing p f id (x ∷ runs) keeps h = elim (Bool-cases (p x)) [
  | inl hit ↦ ground (arith, ap (λ i. i == id) (keeps x), hit, find_run-missing p f id runs keeps)
  | inr miss ↦ ground (arith, miss, find_run-missing p f id runs keeps)
]

none_some_row : {A : Type 0} {x : Run} → none ≡ some x → A
none_some_row h = cc

some_same : {x y : Run} → some x ≡ some y → x ≡ y
some_same h = cc

cleared : Run → Run
cleared r = record r { claim_token = none; claimed_at = none; heartbeat_at = none }

cleared_free :
    (id token : String) (x : Run)
    → x.id ≡ id
    → has_token token
        (if x.id == id && has_token token x.claim_token then cleared x else x).claim_token
      ≡ false
unfolding cleared
cleared_free id token x q = elim (Bool-cases (x.id == id && has_token token x.claim_token)) [
  | inl both ↦ rw both refl
  | inr other ↦ rw other (ground (arith, eq_iff x.id id))
]

-- A run does not carry a token after it was given back.
release_run_claim-free :
    (id token : String) (runs : List Run) (y : Run)
    → find_run id (release_run_claim id token runs).1 ≡ some y
    → has_token token y.claim_token ≡ false
unfolding release_run_claim cleared
release_run_claim-free id token runs y h =
    let p : Run → Bool = λ r. r.id == id && has_token token r.claim_token in
    elim (Option-cases (find_run id runs)) [
      | inl missing ↦
          none_some_row (sym (find_run-missing p cleared id runs (λ r. refl) missing) ∙ h)
      | inr (x, found) ↦
          let after = find_run-update_where p cleared id runs x (λ r. refl) found in
          ap (λ (z : Run). has_token token z.claim_token) (some_same (sym h ∙ after))
          ∙ cleared_free id token x (find_run-id id runs x found)
    ]

-- The run that a poll executed, to its end or to an exception.
abbrev pub run_of : Poll → Option Run
run_of idle = none
run_of (returned r) = some r
run_of (raised r) = some r
run_of (interrupted r) = none
run_of invalid_worker = none

given_back :
    (e : Ending) (c r : Run) (s : Store)
    → run_of (outcome e c) ≡ some r
    → (c ≡ r) × ((settle e c s).runs ≡ (release_run_claim c.id (token_of c) s.runs).1)
given_back finished c r s h = (some_same h, refl)
given_back raises c r s h = (some_same h, refl)
given_back cancelled c r s h = none_some_row h

after_claim-free :
    (executor : Executor) (c : Claim) (s : Store) (r x : Run)
    → run_of (after_claim (execute executor) c s).0 ≡ some r
    → find_run r.id (after_claim (execute executor) c s).1.runs ≡ some x
    → has_token (token_of r) x.claim_token ≡ false
unfolding after_claim execute
after_claim-free executor blank_worker s r x h found = none_some_row h
after_claim-free executor nothing s r x h found = none_some_row h
after_claim-free executor (claimed c) s r x h found =
    let after = (executor c s).1 in
    let (same, runs) = given_back (executor c s).0 c r after h in
    release_run_claim-free r.id (token_of r) after.runs x (
      ap (λ (z : Run). find_run r.id (release_run_claim z.id (token_of z) after.runs).1) (sym same)
      ∙ ap (find_run r.id) (sym runs)
      ∙ found)

-- Whatever the executor does to the store: after a poll in which it returned or raised an `Exception`,
-- the run that was executed does not carry the token of the poll's claim, if it is in the table.
pub poll_once_async-free :
    (executor : Executor) (worker_id token : String) (lease_seconds now : ℕ) (s : Store) (r x : Run)
    → run_of (poll_once_async executor worker_id token lease_seconds now s).0 ≡ some r
    → find_run r.id (poll_once_async executor worker_id token lease_seconds now s).1.runs ≡ some x
    → has_token (token_of r) x.claim_token ≡ false
unfolding poll_once_async
poll_once_async-free executor worker_id token lease_seconds now s r x =
    let c = claim_run worker_id token lease_seconds now s.runs in
    after_claim-free executor c.0 (record s { runs = c.1 }) r x
