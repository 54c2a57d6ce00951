-- ===== src/Runs/Edits.antt =====
-- Each operation on the runs of the table is an update of some rows, which keeps their ids.
use sdp_studio.Prelude.{
  ℕ, String, ◌≡◌, refl, sym, ap, ◌∙◌, subst, Bool, Bool-cases, inl, inr, true, false, ◌&&◌, List,
  [], ◌∷◌, count, eqb, none, some, Option-cases, if◌then◌else◌, arith, ◌==◌,
}
use sdp_studio.Runs.Status.{RunStatus, is_valid_run_transition, same_status, queued}
use sdp_studio.Runs.Store.{
  Run, find_run, update_where, Change, status, apply_all, update_run, transition_row,
  transition_run,
}
use sdp_studio.Runs.Claims.{
  is_claimable, cutoff, take_claim, is_blank, oldest, claim_candidate, claim_run, has_token,
  heartbeat_run, release_run_claim,
}
use sdp_studio.Runs.Rows.{
  IsKeyed, update_where-IsKeyed, KeepsId, find_run-update_where, find_run-id, apply_all-id,
}

-- `after` comes from `before` by an update that does to each row what `Fine` says.
pub record Edit (Fine : Run → Run → Type 0) (before after : List Run) : Type 0 where
  p : Run → Bool
  f : Run → Run
  same : after ≡ update_where p f before
  keeps : KeepsId f
  fine : (r : Run) → find_run r.id before ≡ some r → p r ≡ true → Fine r (f r)

same_row : {r s : Run} → some r ≡ some s → r ≡ s
same_row h = cc

module _ (Fine : Run → Run → Type 0) where
  update_nothing : (runs : List Run) → runs ≡ update_where (λ r. false) (λ r. r) runs
  unfolding update_where
  update_nothing [] = refl
  update_nothing (r ∷ runs) = ap (λ rs. r ∷ rs) (update_nothing runs)

  Edit-none : (runs : List Run) → Edit Fine runs runs
  Edit-none runs = record {
    p = λ r. false;
    f = λ r. r;
    same = update_nothing runs;
    keeps = λ r. refl;
    fine = λ r h no_row. cc;
  }

  edited :
      (p : Run → Bool) (f : Run → Run) (runs : List Run) (id : String) (r : Run)
      → find_run id runs ≡ some r
      → find_run id (update_where p f runs) ≡ some (if p r then f r else r)
      → ((r : Run) → find_run r.id runs ≡ some r → p r ≡ true → Fine r (f r))
      → ((r : Run) → Fine r r)
      → (r' : Run) × (find_run id (update_where p f runs) ≡ some r') × Fine r r'
  edited p f runs id r h found fine unchanged = elim (Bool-cases (p r)) [
    | inl hit ↦ (
      f r,
      found ∙ rw hit refl,
      fine r (ap (λ i. find_run i runs) (find_run-id id runs r h) ∙ h) hit,
    )
    | inr miss ↦ (r, found ∙ rw miss refl, unchanged r)
  ]

  -- What becomes of a row.
  pub Edit-find :
      (before after : List Run)
      → Edit Fine before after
      → ((r : Run) → Fine r r)
      → (id : String) (r : Run) → find_run id before ≡ some r
      → (r' : Run) × (find_run id after ≡ some r') × Fine r r'
  Edit-find before after e unchanged id r h =
      let (r', found, ok) =
        edited e.p e.f before id r h (find_run-update_where e.p e.f id before r e.keeps h) e.fine
          unchanged in
      (r', ap (find_run id) e.same ∙ found, ok)

  pub Edit-IsKeyed :
      (before after : List Run) → Edit Fine before after → IsKeyed before → IsKeyed after
  Edit-IsKeyed before after e h =
      subst IsKeyed (sym e.same) (update_where-IsKeyed e.p e.f before e.keeps h)

  pub update_run-Edit :
      (id : String) (changes : List Change) (runs : List Run)
      → ((r : Run) → find_run r.id runs ≡ some r → r.id == id ≡ true → Fine r (apply_all changes r))
      → Edit Fine runs (update_run id changes runs)
  unfolding update_run
  update_run-Edit id changes runs fine = record {
    p = λ r. r.id == id;
    f = apply_all changes;
    same = refl;
    keeps = apply_all-id changes;
    fine = fine;
  }

  transition_row-Edit :
      (row : Run) (id : String) (target : RunStatus) (changes : List Change) (runs : List Run)
      → (is_valid_run_transition row.status target ≡ true
          → (r : Run) → find_run r.id runs ≡ some r
          → r.id == id ≡ true
          → Fine r (apply_all (status target ∷ changes) r))
      → Edit Fine runs (transition_row row id target changes runs).1
  unfolding transition_row
  transition_row-Edit row id target changes runs fine =
      elim (Bool-cases (is_valid_run_transition row.status target)) [
        | inl valid ↦ rw valid (update_run-Edit id (status target ∷ changes) runs (fine valid))
        | inr invalid ↦ rw invalid (Edit-none runs)
      ]

  pub transition_run-Edit :
      (id : String) (target : RunStatus) (changes : List Change) (read runs : List Run)
      → ((row : Run)
          → find_run id read ≡ some row
          → is_valid_run_transition row.status target ≡ true
          → (r : Run) → find_run r.id runs ≡ some r
          → r.id == id ≡ true
          → Fine r (apply_all (status target ∷ changes) r))
      → Edit Fine runs (transition_run id target changes read runs).1
  unfolding transition_run
  transition_run-Edit id target changes read runs fine = elim (Option-cases (find_run id read)) [
    | inl missing ↦ rw (missing, transition_run) (Edit-none runs)
    | inr (row, found) ↦
        rw (found, transition_run) (transition_row-Edit row id target changes runs (fine row found))
  ]

  claim_candidate-Edit :
      (c : Run) (token : String) (now before : ℕ) (runs : List Run)
      → ((r : Run) → is_claimable before r ≡ true → Fine r (take_claim token now r))
      → Edit Fine runs (claim_candidate c token now before runs).1
  unfolding claim_candidate
  claim_candidate-Edit c token now before runs fine =
      let e : Edit Fine runs
          (update_where (λ r. r.id == c.id && is_claimable before r) (take_claim token now) runs) =
        record {
          p = λ r. r.id == c.id && is_claimable before r;
          f = take_claim token now;
          same = refl;
          keeps = λ r. refl;
          fine = λ r h hit. fine r (ground arith);
        } in
      elim (Bool-cases (eqb (count (λ r. r.id == c.id && is_claimable before r) runs) 1)) [
        | inl one ↦ rw one e
        | inr off ↦ rw off e
      ]

  pub claim_run-Edit :
      (worker_id token : String) (lease_seconds now : ℕ) (runs : List Run)
      → ((r : Run)
          → is_claimable (cutoff now lease_seconds) r ≡ true
          → Fine r (take_claim token now r))
      → Edit Fine runs (claim_run worker_id token lease_seconds now runs).1
  unfolding claim_run
  claim_run-Edit worker_id token lease_seconds now runs fine =
      elim (Bool-cases (is_blank worker_id)) [
        | inl blank ↦ rw blank (Edit-none runs)
        | inr named ↦ elim (Option-cases (oldest (is_claimable (cutoff now lease_seconds)) runs)) [
          | inl idle ↦ rw (named, idle) (Edit-none runs)
          | inr (c, found) ↦
              rw (named, found)
                (claim_candidate-Edit c token now (cutoff now lease_seconds) runs fine)
        ]
      ]

  pub heartbeat_run-Edit :
      (run_id token : String) (now : ℕ) (runs : List Run)
      → ((r : Run) → Fine r (record r { heartbeat_at = some now }))
      → Edit Fine runs (heartbeat_run run_id token now runs).1
  unfolding heartbeat_run
  heartbeat_run-Edit run_id token now runs fine = elim (Bool-cases (token == "")) [
    | inl blank ↦ rw blank (Edit-none runs)
    | inr named ↦ rw named (record {
      p = λ r. r.id == run_id && (has_token token r.claim_token && same_status r.status queued);
      f = λ r. record r { heartbeat_at = some now };
      same = refl;
      keeps = λ r. refl;
      fine = λ r h hit. fine r;
    })
  ]

  pub release_run_claim-Edit :
      (run_id token : String) (runs : List Run)
      → ((r : Run)
          → r.id == run_id ≡ true
          → has_token token r.claim_token ≡ true
          → Fine r (record r { claim_token = none; claimed_at = none; heartbeat_at = none }))
      → Edit Fine runs (release_run_claim run_id token runs).1
  unfolding release_run_claim
  release_run_claim-Edit run_id token runs fine = record {
    p = λ r. r.id == run_id && has_token token r.claim_token;
    f = λ r. record r { claim_token = none; claimed_at = none; heartbeat_at = none };
    same = refl;
    keeps = λ r. refl;
    fine = λ r h hit. fine r (ground arith) (ground arith);
  }
