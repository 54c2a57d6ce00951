-- ===== src/Runs/Moves.antt =====
-- Sequences of operations move the status of a run along the transition table.
use sdp_studio.Prelude.{
  ℕ, ◌+◌, ◌≤◌, String, ◌≡◌, refl, sym, ap, ◌==◌, eq_iff, ◌∙◌, Bool-cases, inl, inr, true, not, List,
  [], ◌∷◌, all, some, if◌then◌else◌, arith,
}
use sdp_studio.Runs.Status.{RunStatus, is_valid_run_transition, is_terminal, same_status}
use sdp_studio.Runs.Life.{
  History, fresh, join, History-of_valid, History-bound, History-none, terminal-fresh, valid_same,
  valid_lost, same_status_eq,
}
use sdp_studio.Runs.Store.{
  Run, Store, find_run, Change, status, started_at, finished_at, claimed_at, heartbeat_at,
  exit_code, error, claim_token, other, apply_change, apply_all,
}
use sdp_studio.Runs.Recovery.{lose}
use sdp_studio.Runs.Rows.{IsKeyed}
use sdp_studio.Runs.Edits.{
  Edit-find, Edit-IsKeyed, update_run-Edit, transition_run-Edit, claim_run-Edit, heartbeat_run-Edit,
  release_run_claim-Edit,
}
use sdp_studio.Runs.Lost.{
  reconcile_non_terminal_runs-find, reconcile_non_terminal_runs-IsKeyed, create_run-IsKeyed,
  create_run-find,
}
use sdp_studio.Runs.Deletion.{delete_project-IsKeyed, delete_project-find}
use sdp_studio.Runs.Operations.{
  Operation, create, update, transition, claim, heartbeat, release, reconcile, perform, perform_all,
  spares_status, is_disciplined, is_current, throughout, delete,
}

-- Any update at all.
abbrev Anything : Run → Run → Type 0
Anything r s = r.id ≡ r.id

pub perform-IsKeyed : (op : Operation) (s : Store) → IsKeyed s.runs → IsKeyed (perform op s).runs
unfolding perform
perform-IsKeyed (create r) s h = create_run-IsKeyed r s h
perform-IsKeyed (reconcile now) s h = reconcile_non_terminal_runs-IsKeyed now s h
perform-IsKeyed (update id cs) s h =
    Edit-IsKeyed Anything s.runs _ (update_run-Edit Anything id cs s.runs (λ r f e. refl)) h
perform-IsKeyed (transition id target cs read) s h =
    Edit-IsKeyed Anything s.runs _
      (transition_run-Edit Anything id target cs read s.runs (λ row at valid r e hit. refl)) h
perform-IsKeyed (delete project_id) s h = delete_project-IsKeyed project_id s h
perform-IsKeyed (claim w t l now) s h =
    Edit-IsKeyed Anything s.runs _ (claim_run-Edit Anything w t l now s.runs (λ r e. refl)) h
perform-IsKeyed (heartbeat i t now) s h =
    Edit-IsKeyed Anything s.runs _ (heartbeat_run-Edit Anything i t now s.runs (λ r. refl)) h
perform-IsKeyed (release i t) s h =
    Edit-IsKeyed Anything s.runs _ (release_run_claim-Edit Anything i t s.runs (λ r a b. refl)) h

apply_change-status :
    (c : Change) (r : Run) → spares_status c ≡ true → (apply_change c r).status ≡ r.status
unfolding apply_change spares_status
apply_change-status (status s) r h = cc
apply_change-status (started_at t) r h = refl
apply_change-status (finished_at t) r h = refl
apply_change-status (claimed_at t) r h = refl
apply_change-status (heartbeat_at t) r h = refl
apply_change-status (exit_code c) r h = refl
apply_change-status (error e) r h = refl
apply_change-status (claim_token t) r h = refl
apply_change-status (other n) r h = refl

apply_all-status :
    (cs : List Change) (r : Run) → all spares_status cs ≡ true → (apply_all cs r).status ≡ r.status
unfolding apply_all
apply_all-status [] r h = refl
apply_all-status (c ∷ cs) r h =
    apply_all-status cs (apply_change c r) (ground arith) ∙ apply_change-status c r (ground arith)

set_status :
    (target : RunStatus) (cs : List Change) (r : Run)
    → all spares_status cs ≡ true
    → (apply_all (status target ∷ cs) r).status ≡ target
unfolding apply_all apply_change
set_status target cs r h = apply_all-status cs (record r { status = target }) h

abbrev Follows : Run → Run → Type 0
Follows r s = is_valid_run_transition r.status s.status ≡ true

unchanged : (r s : Run) → s.status ≡ r.status → Follows r s
unchanged r s e = ap (is_valid_run_transition r.status) e ∙ valid_same r.status

moves_to :
    (target : RunStatus) (cs : List Change) (r : Run)
    → all spares_status cs ≡ true
    → is_valid_run_transition r.status target ≡ true
    → Follows r (apply_all (status target ∷ cs) r)
moves_to target cs r h valid =
    ap (is_valid_run_transition r.status) (set_status target cs r h) ∙ valid

lose-Follows :
    (now : ℕ) (r : Run) → Follows r (if not (is_terminal r.status) then lose now r else r)
lose-Follows now r = elim (Bool-cases (is_terminal r.status)) [
  | inl ended ↦ rw ended (valid_same r.status)
  | inr pending ↦ rw pending (valid_lost r.status pending)
]

-- The row that is written has the status that was read.
still_valid :
    (id : String) (target : RunStatus) (read runs : List Run) (row x : Run)
    → find_run id read ≡ some row
    → is_current (find_run id read) (find_run id runs) ≡ true
    → is_valid_run_transition row.status target ≡ true
    → find_run x.id runs ≡ some x
    → x.id == id ≡ true
    → is_valid_run_transition x.status target ≡ true
unfolding is_current
still_valid id target read runs row x at same valid found hit =
    let here : find_run id runs ≡ some x =
      ap (λ i. find_run i runs) (sym ((eq_iff x.id id).0 hit)) ∙ found in
    let now : same_status row.status x.status ≡ true = rw (at, here) at same in
    ap (λ t. is_valid_run_transition t target) (sym (same_status_eq row.status x.status now))
    ∙ valid

-- One operation moves the status of a run by a valid transition, or keeps it.
pub perform-Follows :
    (op : Operation) (s : Store) (id : String) (r : Run)
    → is_disciplined id op s ≡ true
    → IsKeyed s.runs
    → find_run id s.runs ≡ some r
    → (r' : Run) × (find_run id (perform op s).runs ≡ some r') × Follows r r'
unfolding perform is_disciplined
perform-Follows (create x) s id r fair keyed h =
    (r, create_run-find x s id r h, valid_same r.status)
perform-Follows (reconcile now) s id r fair keyed h = (
  if not (is_terminal r.status) then lose now r else r,
  reconcile_non_terminal_runs-find now s id r keyed h,
  lose-Follows now r,
)
perform-Follows (update i cs) s id r fair keyed h =
    Edit-find Follows s.runs _
      (update_run-Edit Follows i cs s.runs
        (λ x f e. unchanged x (apply_all cs x) (apply_all-status cs x fair)))
      (λ x. valid_same x.status) id r h
perform-Follows (delete project_id) s id r fair keyed h =
    (r, delete_project-find project_id id s r h fair, valid_same r.status)
perform-Follows (transition i target cs read) s id r fair keyed h =
    Edit-find Follows s.runs _
      (transition_run-Edit Follows i target cs read s.runs (λ row at valid x found hit.
        moves_to target cs x (ground (arith, fair))
          (still_valid i target read s.runs row x at (ground (arith, fair)) valid found hit)))
      (λ x. valid_same x.status) id r h
perform-Follows (claim w t l now) s id r fair keyed h =
    Edit-find Follows s.runs _
      (claim_run-Edit Follows w t l now s.runs (λ x e. valid_same x.status))
      (λ x. valid_same x.status) id r h
perform-Follows (heartbeat i t now) s id r fair keyed h =
    Edit-find Follows s.runs _
      (heartbeat_run-Edit Follows i t now s.runs (λ x. valid_same x.status))
      (λ x. valid_same x.status) id r h
perform-Follows (release i t) s id r fair keyed h =
    Edit-find Follows s.runs _
      (release_run_claim-Edit Follows i t s.runs (λ x a b. valid_same x.status))
      (λ x. valid_same x.status) id r h

pub all-History :
    (ops : List Operation) (s : Store) (id : String) (r : Run)
    → throughout (is_disciplined id) ops s ≡ true
    → IsKeyed s.runs
    → find_run id s.runs ≡ some r
    → (r' : Run) × (n : ℕ) × (find_run id (perform_all ops s).runs ≡ some r')
      × History r.status r'.status n
unfolding throughout
all-History [] s id r fair keyed h = (r, 0, h, fresh)
all-History (op ∷ ops) s id r fair keyed h =
    let (m, found, valid) = perform-Follows op s id r (ground arith) keyed h in
    let (k, one) = History-of_valid r.status m.status valid in
    let (r', n, later, rest) =
      all-History ops (perform op s) id m (ground arith) (perform-IsKeyed op s keyed) found in
    (r', k + n, later, join one rest)

module _ (ops : List Operation) (s : Store) (id : String) (r : Run)
    (fair : throughout (is_disciplined id) ops s ≡ true) (keyed : IsKeyed s.runs)
    (row : find_run id s.runs ≡ some r) where
  -- Let operations follow on a store of distinct run ids, in which updates and the further fields of
  -- transitions do not name the status, the status that a transition reads is still there when it is
  -- written, and the project of the run is not deleted. Then the run stays in the table, and its status
  -- moves along the transition table by at most seven changes.
  pub perform_all-History :
      (r' : Run) × (n : ℕ) × (find_run id (perform_all ops s).runs ≡ some r')
      × History r.status r'.status n
      × (n ≤ 7)
  perform_all-History =
      let (r', n, found, path) = all-History ops s id r fair keyed row in
      (r', n, found, path, History-bound path)

  -- Let operations follow on a store of distinct run ids, in which updates and the further fields of
  -- transitions do not name the status, the status that a transition reads is still there when it is
  -- written, and the project of the run is not deleted. Then a run whose status is terminal keeps it.
  pub perform_all-terminal :
      is_terminal r.status ≡ true
      → (r' : Run) × (find_run id (perform_all ops s).runs ≡ some r') × (r'.status ≡ r.status)
  perform_all-terminal ended =
      let (r', n, found, path) = all-History ops s id r fair keyed row in
      (r', found, History-none path (terminal-fresh path ended))
