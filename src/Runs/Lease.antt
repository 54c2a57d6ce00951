-- ===== src/Runs/Lease.antt =====
-- A claimed run stays with its holder while the lease lasts.
use sdp_studio.Prelude.{
  ℕ, ◌≤◌, String, ◌≡◌, refl, ap, Bool, true, false, not, ◌&&◌, List, [], ◌∷◌, all, leb, some,
  if◌then◌else◌, arith, ◌==◌, eq_iff,
}
use sdp_studio.Runs.Status.{RunStatus, is_terminal}
use sdp_studio.Runs.Store.{
  Run, Store, find_run, Change, status, started_at, finished_at, claimed_at, heartbeat_at,
  exit_code, error, claim_token, other, apply_change, apply_all,
}
use sdp_studio.Runs.Claims.{is_claimable, cutoff, has_token}
use sdp_studio.Runs.Recovery.{lose}
use sdp_studio.Runs.Rows.{IsKeyed}
use sdp_studio.Runs.Edits.{
  Edit-find, update_run-Edit, transition_run-Edit, claim_run-Edit, heartbeat_run-Edit,
  release_run_claim-Edit,
}
use sdp_studio.Runs.Lost.{reconcile_non_terminal_runs-find, create_run-find}
use sdp_studio.Runs.Deletion.{delete_project-find}
use sdp_studio.Runs.Operations.{
  Operation, create, update, transition, claim, heartbeat, release, reconcile, delete, perform,
  is_outside,
}

-- The run carries the token, and a heartbeat of `since` or later.
pub record IsHeld (token : String) (since : ℕ) (r : Run) : Type 0 where
  pub holder : r.claim_token ≡ some token
  pub beat : ℕ
  pub recent : r.heartbeat_at ≡ some beat
  pub later : since ≤ beat

-- A change of another column than those of the claim.
pub spares_claim : Change → Bool
spares_claim (status s) = true
spares_claim (started_at t) = true
spares_claim (finished_at t) = true
spares_claim (claimed_at t) = true
spares_claim (heartbeat_at t) = false
spares_claim (exit_code c) = true
spares_claim (error e) = true
spares_claim (claim_token t) = false
spares_claim (other n) = true

-- Claims are made within the lease, heartbeats not before it began, nobody gives the token of the run
-- back, updates leave the claim alone, and the project of the run is not deleted.
unfoldable pub respects : String → String → ℕ → Operation → Store → Bool
unfolding spares_claim is_outside find_run
respects id token since (create r) s = true
respects id token since (update i cs) s = all spares_claim cs
respects id token since (transition i target cs read) s = all spares_claim cs
respects id token since (claim w t lease_seconds now) s = leb (cutoff now lease_seconds) since
respects id token since (heartbeat i t now) s = leb since now
respects id token since (release i t) s = not (i == id && t == token)
respects id token since (reconcile now) s = true
respects id token since (delete project_id) s = is_outside project_id (find_run id s.runs)

apply_change-IsHeld :
    (token : String) (since : ℕ) (c : Change) (r : Run)
    → spares_claim c ≡ true
    → IsHeld token since r
    → IsHeld token since (apply_change c r)
unfolding spares_claim apply_change
apply_change-IsHeld token since (status s) r h held = record {
  holder = held.holder;
  beat = held.beat;
  recent = held.recent;
  later = held.later;
}
apply_change-IsHeld token since (started_at t) r h held = record {
  holder = held.holder;
  beat = held.beat;
  recent = held.recent;
  later = held.later;
}
apply_change-IsHeld token since (finished_at t) r h held = record {
  holder = held.holder;
  beat = held.beat;
  recent = held.recent;
  later = held.later;
}
apply_change-IsHeld token since (claimed_at t) r h held = record {
  holder = held.holder;
  beat = held.beat;
  recent = held.recent;
  later = held.later;
}
apply_change-IsHeld token since (exit_code c) r h held = record {
  holder = held.holder;
  beat = held.beat;
  recent = held.recent;
  later = held.later;
}
apply_change-IsHeld token since (error e) r h held = record {
  holder = held.holder;
  beat = held.beat;
  recent = held.recent;
  later = held.later;
}
apply_change-IsHeld token since (other n) r h held = held
apply_change-IsHeld token since (heartbeat_at t) r h held = cc
apply_change-IsHeld token since (claim_token t) r h held = cc

apply_all-IsHeld :
    (token : String) (since : ℕ) (cs : List Change) (r : Run)
    → all spares_claim cs ≡ true
    → IsHeld token since r
    → IsHeld token since (apply_all cs r)
unfolding apply_all
apply_all-IsHeld token since [] r h held = held
apply_all-IsHeld token since (c ∷ cs) r h held =
    apply_all-IsHeld token since cs (apply_change c r) (ground arith)
      (apply_change-IsHeld token since c r (ground arith) held)

-- A run that is held is not claimable within the lease.
pub held_blocks :
    (token : String) (since before : ℕ) (r : Run)
    → before ≤ since
    → IsHeld token since r
    → is_claimable before r ≡ false
unfolding is_claimable
held_blocks token since before r soon held =
    rw (held.holder, held.recent) (ground (arith, held.later))

module _ (id token : String) (since : ℕ) where
  abbrev Keeps : Run → Run → Type 0
  Keeps r s = r.id ≡ id → IsHeld token since r → IsHeld token since s

  set_status-Keeps :
      (target : RunStatus) (cs : List Change) (r : Run)
      → all spares_claim cs ≡ true
      → Keeps r (apply_all (status target ∷ cs) r)
  unfolding spares_claim
  set_status-Keeps target cs r h q held =
      apply_all-IsHeld token since (status target ∷ cs) r (ground arith) held

  lose-Keeps : (now : ℕ) (b : Bool) (r : Run) → Keeps r (if b then lose now r else r)
  lose-Keeps now true r q held = record {
    holder = held.holder;
    beat = held.beat;
    recent = held.recent;
    later = held.later;
  }
  lose-Keeps now false r q held = held

  pub perform-Keeps :
      (op : Operation) (s : Store) (r : Run)
      → respects id token since op s ≡ true
      → IsKeyed s.runs
      → find_run id s.runs ≡ some r
      → (r' : Run) × (find_run id (perform op s).runs ≡ some r') × Keeps r r'
  unfolding perform respects
  perform-Keeps (create x) s r fair keyed h = (r, create_run-find x s id r h, λ q held. held)
  perform-Keeps (reconcile now) s r fair keyed h = (
    if not (is_terminal r.status) then lose now r else r,
    reconcile_non_terminal_runs-find now s id r keyed h,
    lose-Keeps now (not (is_terminal r.status)) r,
  )
  perform-Keeps (update i cs) s r fair keyed h =
      Edit-find Keeps s.runs _
        (update_run-Edit Keeps i cs s.runs (λ x f e q. apply_all-IsHeld token since cs x fair))
        (λ x q held. held) id r h
  perform-Keeps (delete project_id) s r fair keyed h =
      (r, delete_project-find project_id id s r h fair, λ q held. held)
  perform-Keeps (transition i target cs read) s r fair keyed h =
      Edit-find Keeps s.runs _
        (transition_run-Edit Keeps i target cs read s.runs
          (λ row at valid x found hit. set_status-Keeps target cs x fair))
        (λ x q held. held) id r h
  perform-Keeps (claim w t l now) s r fair keyed h =
      Edit-find Keeps s.runs _
        (claim_run-Edit Keeps w t l now s.runs (λ x e q held.
          ground (arith, held_blocks token since (cutoff now l) x (ground arith) held)))
        (λ x q held. held) id r h
  perform-Keeps (heartbeat i t now) s r fair keyed h =
      Edit-find Keeps s.runs _
        (heartbeat_run-Edit Keeps i t now s.runs (λ x q held. record {
          holder = held.holder;
          beat = now;
          recent = refl;
          later = ground arith;
        }))
        (λ x q held. held) id r h
  perform-Keeps (release i t) s r fair keyed h =
      Edit-find Keeps s.runs _
        (release_run_claim-Edit Keeps i t s.runs (λ x e g q held. ground (
          arith,
          ap (has_token t) held.holder,
          eq_iff token t,
          eq_iff t token,
          eq_iff x.id i,
          eq_iff i id,
          q,
        )))
        (λ x q held. held) id r h
