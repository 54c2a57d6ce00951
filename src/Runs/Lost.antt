-- ===== src/Runs/Lost.antt =====
-- `reconcile_non_terminal_runs` reports the runs that are not terminal, and loses exactly those.
use mathlib.Core.List.Memᴰ.{append_cases}
use sdp_studio.Prelude.{
  ℕ, String, ◌≡◌, refl, sym, ap, ◌∙◌, Bool, Bool-cases, inl, inr, true, false, not, ◌&&◌, ◌||◌,
  List, [], ◌∷◌, ◌++◌, Memᴰ, contains, Option-cases, none, some, if◌then◌else◌, arith, ◌==◌, eq_iff,
  eq_refl,
}
use sdp_studio.Runs.Status.{is_terminal}
use sdp_studio.Runs.Store.{Run, Store, find_run, update_where, create_run}
use sdp_studio.Runs.Recovery.{lost_ids, lose, mark_lost, reconcile_non_terminal_runs}
use sdp_studio.Runs.Rows.{
  IsKeyed, update_where-IsKeyed, find_run-update_where, find_run-id, find_run-append,
}

pub find_run-mem :
    (id : String) (runs : List Run) (r : Run) → find_run id runs ≡ some r → Memᴰ r runs
unfolding find_run
find_run-mem id [] r h = cc
find_run-mem id (x ∷ runs) r h = elim (Bool-cases (x.id == id)) [
  | inl here ↦ Memᴰ.head (ground arith)
  | inr off ↦ Memᴰ.tail (find_run-mem id runs r (ground arith))
]

lost_mem :
    (runs : List Run) (id : String)
    → contains (lost_ids runs) id ≡ true
    → (r : Run) × Memᴰ r runs × (r.id ≡ id) × (is_terminal r.status ≡ false)
unfolding lost_ids
lost_mem [] id h = cc
lost_mem (x ∷ runs) id h = elim (Bool-cases (not (is_terminal x.status) && x.id == id)) [
  | inl here ↦ (x, Memᴰ.head refl, (eq_iff x.id id).0 (ground arith), ground arith)
  | inr off ↦
      let (r, m, q, pending) = lost_mem runs id (ground arith) in (r, Memᴰ.tail m, q, pending)
]

mem_lost :
    (runs : List Run) (r : Run)
    → Memᴰ r runs
    → is_terminal r.status ≡ false
    → contains (lost_ids runs) r.id ≡ true
unfolding lost_ids
mem_lost [] r m pending = elim m [ ]
mem_lost (x ∷ runs) r (Memᴰ.head e) pending =
    ground
      (arith, ap (λ (y : Run). is_terminal y.status) e, eq_iff x.id r.id, ap (λ (y : Run). y.id) e)
mem_lost (x ∷ runs) r (Memᴰ.tail m) pending = ground (arith, mem_lost runs r m pending)

same_run : {r s : Run} → some r ≡ some s → r ≡ s
same_run h = cc

-- The ids that recovery returns are those of the runs that are not terminal.
pub lost_ids_exact :
    (runs : List Run) (r : Run)
    → IsKeyed runs
    → Memᴰ r runs
    → contains (lost_ids runs) r.id ≡ not (is_terminal r.status)
lost_ids_exact runs r keyed m = elim (Bool-cases (is_terminal r.status)) [
  | inr pending ↦ ground (arith, mem_lost runs r m pending)
  | inl ended ↦ elim (Bool-cases (contains (lost_ids runs) r.id)) [
    | inl reported ↦
        let (x, n, q, pending) = lost_mem runs r.id reported in
        let same =
          same_run (sym (keyed.first x n) ∙ ap (λ i. find_run i runs) q ∙ keyed.first r m) in
        ground (arith, ap (λ (y : Run). is_terminal y.status) same)
    | inr unreported ↦ ground arith
  ]
]

once_lost :
    (now : ℕ) (a b : Bool) (r : Run)
    → (if b then lose now (if a then lose now r else r) else (if a then lose now r else r))
      ≡ (if a || b then lose now r else r)
once_lost now true true r = refl
once_lost now true false r = refl
once_lost now false true r = refl
once_lost now false false r = refl

lose_if-id : (now : ℕ) (b : Bool) (r : Run) → (if b then lose now r else r).id ≡ r.id
lose_if-id now true r = refl
lose_if-id now false r = refl

mark_lost-find :
    (now : ℕ) (ids : List String) (runs : List Run) (id : String) (r : Run)
    → find_run id runs ≡ some r
    → find_run id (mark_lost now ids runs) ≡ some (if contains ids id then lose now r else r)
unfolding mark_lost
mark_lost-find now [] runs id r h = h
mark_lost-find now (x ∷ ids) runs id r h =
    let step : Run = if r.id == x then lose now r else r in
    let one = find_run-update_where (λ y. y.id == x) (lose now) id runs r (λ y. refl) h in
    let later =
      mark_lost-find now ids (update_where (λ y. y.id == x) (lose now) runs) id step one in
    let name : (r.id == x) ≡ (x == id) =
      ground (arith, find_run-id id runs r h, eq_iff r.id x, eq_iff x id) in
    later
    ∙ ap some (once_lost now (r.id == x) (contains ids id) r)
    ∙ ap (λ b. some (if b || contains ids id then lose now r else r)) name

-- Recovery leaves a terminal run as it is and loses every other.
pub reconcile_non_terminal_runs-find :
    (now : ℕ) (s : Store) (id : String) (r : Run)
    → IsKeyed s.runs
    → find_run id s.runs ≡ some r
    → find_run id (reconcile_non_terminal_runs now s).1.runs
      ≡ some (if not (is_terminal r.status) then lose now r else r)
unfolding reconcile_non_terminal_runs
reconcile_non_terminal_runs-find now s id r keyed h =
    let exact =
      ap (contains (lost_ids s.runs)) (sym (find_run-id id s.runs r h))
      ∙ lost_ids_exact s.runs r keyed (find_run-mem id s.runs r h) in
    mark_lost-find now (lost_ids s.runs) s.runs id r h
    ∙ ap (λ b. some (if b then lose now r else r)) exact

mark_lost-IsKeyed :
    (now : ℕ) (ids : List String) (runs : List Run)
    → IsKeyed runs
    → IsKeyed (mark_lost now ids runs)
unfolding mark_lost
mark_lost-IsKeyed now [] runs h = h
mark_lost-IsKeyed now (id ∷ ids) runs h =
    mark_lost-IsKeyed now ids (update_where (λ r. r.id == id) (lose now) runs)
      (update_where-IsKeyed (λ r. r.id == id) (lose now) runs (λ r. refl) h)

pub reconcile_non_terminal_runs-IsKeyed :
    (now : ℕ) (s : Store) → IsKeyed s.runs → IsKeyed (reconcile_non_terminal_runs now s).1.runs
unfolding reconcile_non_terminal_runs
reconcile_non_terminal_runs-IsKeyed now s h = mark_lost-IsKeyed now (lost_ids s.runs) s.runs h

find_run-new :
    (runs : List Run) (r : Run)
    → find_run r.id runs ≡ none
    → find_run r.id (runs ++ r ∷ []) ≡ some r
unfolding find_run
find_run-new [] r h = ground (arith, eq_refl r.id)
find_run-new (x ∷ runs) r h = ground (arith, find_run-new runs r)

-- A run of a new id stands behind the others.
insert-IsKeyed :
    (runs : List Run) (r : Run)
    → find_run r.id runs ≡ none
    → IsKeyed runs
    → IsKeyed (runs ++ r ∷ [])
insert-IsKeyed runs r new h = record {
  first = λ x m. elim (append_cases runs m) [
    | inl old ↦ find_run-append x.id runs (r ∷ []) x (h.first x old)
    | inr (Memᴰ.head e) ↦
        ap (λ (y : Run). find_run y.id (runs ++ r ∷ [])) e
        ∙ find_run-new runs r new
        ∙ ap some (sym e)
    | inr (Memᴰ.tail n) ↦ elim n [ ]
  ];
}

pub create_run-IsKeyed : (r : Run) (s : Store) → IsKeyed s.runs → IsKeyed (create_run r s).runs
unfolding create_run
create_run-IsKeyed r s h = elim (Option-cases (find_run r.id s.runs)) [
  | inl new ↦ rw new (insert-IsKeyed s.runs r new h)
  | inr (x, old) ↦ rw old h
]

pub create_run-find :
    (r : Run) (s : Store) (id : String) (x : Run)
    → find_run id s.runs ≡ some x
    → find_run id (create_run r s).runs ≡ some x
unfolding create_run
create_run-find r s id x h = elim (Option-cases (find_run r.id s.runs)) [
  | inl new ↦ rw new (find_run-append id s.runs (r ∷ []) x h)
  | inr (y, old) ↦ rw old h
]

lose-terminal :
    (now : ℕ) (r : Run)
    → is_terminal (if not (is_terminal r.status) then lose now r else r).status ≡ true
lose-terminal now r = elim (Bool-cases (is_terminal r.status)) [
  | inl ended ↦ rw ended ended
  | inr pending ↦ rw pending (unfold is_terminal in refl)
]

-- On a table of distinct ids, recovery returns the ids of exactly the runs that are not terminal, and
-- afterwards every run that was there is terminal.
pub reconcile_non_terminal_runs-terminal :
    (now : ℕ) (s : Store) (id : String) (r : Run)
    → IsKeyed s.runs
    → find_run id s.runs ≡ some r
    → (contains (reconcile_non_terminal_runs now s).0 id ≡ not (is_terminal r.status))
      × (r' : Run) × (find_run id (reconcile_non_terminal_runs now s).1.runs ≡ some r')
      × (is_terminal r'.status ≡ true)
unfolding reconcile_non_terminal_runs
reconcile_non_terminal_runs-terminal now s id r keyed h = (
  ap (contains (lost_ids s.runs)) (sym (find_run-id id s.runs r h))
      ∙ lost_ids_exact s.runs r keyed (find_run-mem id s.runs r h),
  if not (is_terminal r.status) then lose now r else r,
  reconcile_non_terminal_runs-find now s id r keyed h,
  lose-terminal now r,
)
