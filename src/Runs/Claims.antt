-- ===== src/Runs/Claims.antt =====
-- `claim_run`, `heartbeat_run` and `release_run_claim` of python/sdpstudio_server/storage.py. `ORDER BY`
-- leaves rows of one key in the order of the table.
use Prim.Native.Char.{code}
use sdp_studio.Prelude.{
  ℕ, ◌-◌, ◌*◌, String, Bool, true, false, List, [], ◌∷◌, Option, none, some, is_some, not, ◌&&◌,
  ◌||◌, count, ltb, leb, eqb, if◌then◌else◌, ◌==◌,
}
use sdp_studio.Prelude.Text.{is_space}
use sdp_studio.Runs.Status.{queued, same_status}
use sdp_studio.Runs.Store.{Run, find_run, update_where}

-- `heartbeat_at<?`, which `NULL` does not meet
abbrev pub is_before : Option ℕ → ℕ → Bool
is_before none cutoff = false
is_before (some t) cutoff = ltb t cutoff

-- `status='queued' AND (claim_token IS NULL OR heartbeat_at IS NULL OR heartbeat_at<?)`
unfoldable pub is_claimable : ℕ → Run → Bool
is_claimable cutoff r =
    same_status r.status queued
    && (not (is_some r.claim_token)
        || (not (is_some r.heartbeat_at) || is_before r.heartbeat_at cutoff))

-- The older of a row and of the one found behind it.
abbrev pub older : Run → Option Run → Option Run
older r none = some r
older r (some b) = if leb r.created_at b.created_at then some r else some b

-- `ORDER BY created_at LIMIT 1` of the rows that meet the condition
unfoldable pub oldest : (Run → Bool) → List Run → Option Run
oldest p [] = none
oldest p (r ∷ runs) = let rest = oldest p runs in if p r then older r rest else rest

-- `max(1, lease_seconds)` in microseconds. A cutoff before the epoch claims no more than one at it.
abbrev pub cutoff : ℕ → ℕ → ℕ
cutoff now lease_seconds = now - 1000000 * (if ltb 0 lease_seconds then lease_seconds else 1)

-- `not worker_id.strip()`
unfoldable pub is_blank : String → Bool
unfolding is_space
is_blank String.[] = true
is_blank (String.◌∷◌ c s) = is_space (code c) && is_blank s

pub data Claim : Type 0 where
  blank_worker : Claim
  nothing : Claim
  claimed : Run → Claim

abbrev pub take_claim : String → ℕ → Run → Run
take_claim token now r = record r {
  claim_token = some token;
  claimed_at = some now;
  heartbeat_at = some now;
}

-- `claim_run`, after the candidate was selected. `token` is the worker's id with a new ULID.
unfoldable pub claim_candidate : Run → String → ℕ → ℕ → List Run → Claim × List Run
unfolding find_run update_where is_claimable
claim_candidate candidate token now before runs =
    let p : Run → Bool = λ r. r.id == candidate.id && is_claimable before r in
    let table = update_where p (take_claim token now) runs in
    if eqb (count p runs) 1
    then (elim (find_run candidate.id table) [ none ↦ nothing | some r ↦ claimed r ], table)
    else (nothing, table)

unfoldable pub claim_run : String → String → ℕ → ℕ → List Run → Claim × List Run
unfolding is_blank oldest claim_candidate is_claimable
claim_run worker_id token lease_seconds now runs =
    if is_blank worker_id
    then (blank_worker, runs)
    else elim (oldest (is_claimable (cutoff now lease_seconds)) runs) [
      | none ↦ (nothing, runs)
      | some r ↦ claim_candidate r token now (cutoff now lease_seconds) runs
    ]

-- `claim_token=?`, which `NULL` does not meet
abbrev pub has_token : String → Option String → Bool
has_token token none = false
has_token token (some t) = t == token

unfoldable pub heartbeat_run : String → String → ℕ → List Run → Bool × List Run
unfolding update_where
heartbeat_run run_id token now runs =
    let p : Run → Bool =
      λ r. r.id == run_id && (has_token token r.claim_token && same_status r.status queued) in
    if token == ""
    then (false, runs)
    else (eqb (count p runs) 1, update_where p (λ r. record r { heartbeat_at = some now }) runs)

unfoldable pub release_run_claim : String → String → List Run → Bool × List Run
unfolding update_where
release_run_claim run_id token runs =
    let p : Run → Bool = λ r. r.id == run_id && has_token token r.claim_token in
    (
      eqb (count p runs) 1,
      update_where p (λ r. record r { claim_token = none; claimed_at = none; heartbeat_at = none })
          runs,
    )
