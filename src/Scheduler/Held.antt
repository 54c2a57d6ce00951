-- ===== src/Scheduler/Held.antt =====
-- A firing that was granted is held: the row of its schedule has its marker, through updates and the
-- claims of other schedules.
use sdp_studio.Prelude.{
  ℕ, ◌≤◌, String, Bool, Bool-cases, true, false, List, [], ◌∷◌, Option, some, ◌&&◌, count, ◌==◌,
  ◌≡◌, refl, sym, ap, ◌∙◌, inl, inr, arith, eq_iff,
}
use sdp_studio.Scheduler.{Schedule}
use sdp_studio.Scheduler.Store.{
  ScheduleChange, enabled, name, cron, timezone, mode, concurrency_policy, missed_run_policy,
  runtime_profile_id, unsupported, apply_update, apply_updates, set_where, update_schedule, differs,
  is_open_to, claim_schedule,
}

abbrev pub id_is : String → Schedule → Bool
id_is id s = s.id == id

unfoldable pub unheld : String → ℕ → Schedule → Bool
unheld id m s = s.id == id && differs s.last_claim_marker m

module _ (p q : Schedule → Bool) (f : Schedule → Schedule) where
  count-set_where_le :
      (rows : List Schedule)
      → ((s : Schedule) → p s ≡ true → q (f s) ≡ true → q s ≡ true)
      → count q (set_where p f rows) ≤ count q rows
  unfolding set_where
  count-set_where_le [] h = omega arith
  count-set_where_le (s ∷ rows) h = ground (arith, count-set_where_le rows h, h s)

-- What an update does not change.
abbrev pub claimed : Schedule → String × Option ℕ
claimed s = (s.id, s.last_claim_marker)

claimed-apply_update : (c : ScheduleChange) (s : Schedule) → claimed (apply_update c s) ≡ claimed s
unfolding apply_update
claimed-apply_update (enabled b) s = refl
claimed-apply_update (name v) s = refl
claimed-apply_update (cron v) s = refl
claimed-apply_update (timezone v) s = refl
claimed-apply_update (mode v) s = refl
claimed-apply_update (concurrency_policy v) s = refl
claimed-apply_update (missed_run_policy v) s = refl
claimed-apply_update (runtime_profile_id v) s = refl
claimed-apply_update (unsupported key) s = refl

claimed-apply_updates :
    (changes : List ScheduleChange) (s : Schedule) → claimed (apply_updates changes s) ≡ claimed s
unfolding apply_updates
claimed-apply_updates [] s = refl
claimed-apply_updates (c ∷ changes) s =
    claimed-apply_updates changes (apply_update c s) ∙ claimed-apply_update c s

-- A test that reads the id and the marker alone counts as many rows after an update, at most.
update_schedule-count :
    (q : String × Option ℕ → Bool) (id : String) (updates : List ScheduleChange)
    (rows : List Schedule)
    → count (λ s. q (claimed s)) (update_schedule id updates rows).1
      ≤ count (λ s. q (claimed s)) rows
unfolding update_schedule
update_schedule-count q id updates rows =
    let fewer =
      count-set_where_le (λ s. s.id == id) (λ s. q (claimed s)) (apply_updates updates) rows
        (λ s _ on. sym (ap q (claimed-apply_updates updates s)) ∙ on) in
    ground (arith, fewer)

pub serve_update-unheld :
    (id : String) (m : ℕ) (j : String) (updates : List ScheduleChange) (rows : List Schedule)
    → count (unheld id m) rows ≡ 0
    → count (unheld id m) (update_schedule j updates rows).1 ≡ 0
unfolding unheld
serve_update-unheld id m j updates rows h =
    omega (arith, update_schedule-count (λ x. x.0 == id && differs x.1 m) j updates rows)

pub serve_update-id :
    (id : String) (j : String) (updates : List ScheduleChange) (rows : List Schedule)
    → count (id_is id) (update_schedule j updates rows).1 ≤ count (id_is id) rows
serve_update-id id j updates rows = update_schedule-count (λ x. x.0 == id) j updates rows

pub serve_claim-id :
    (id j : String) (k : ℕ) (rows : List Schedule)
    → count (id_is id) (claim_schedule j k rows).1 ≤ count (id_is id) rows
unfolding claim_schedule
serve_claim-id id j k rows =
    count-set_where_le (is_open_to j k) (id_is id) (λ s. record s { last_claim_marker = some k })
      rows (λ s _ on. on)

-- A claim of another schedule, or of the firing that is held.
pub serve_claim-unheld :
    (id : String) (m : ℕ) (j : String) (k : ℕ) (rows : List Schedule)
    → ((j == id) ≡ true → k ≡ m)
    → count (unheld id m) rows ≡ 0
    → count (unheld id m) (claim_schedule j k rows).1 ≡ 0
unfolding claim_schedule unheld is_open_to differs
serve_claim-unheld id m j k rows other h =
    let fewer =
      count-set_where_le (is_open_to j k) (unheld id m)
        (λ s. record s { last_claim_marker = some k }) rows
        (λ s claimable on. ground (arith, eq_iff s.id j, eq_iff s.id id, eq_iff j id, other)) in
    omega (arith, fewer)

refused_if_held :
    (id : String) (m : ℕ) (rows : List Schedule)
    → count (unheld id m) rows ≡ 0
    → count (is_open_to id m) rows ≡ 0
unfolding unheld is_open_to
refused_if_held id m [] h = refl
refused_if_held id m (s ∷ rows) h = ground (arith, refused_if_held id m rows (ground arith))

no_row :
    (id : String) (m : ℕ) (rows : List Schedule)
    → count (id_is id) rows ≡ 0
    → (count (is_open_to id m) rows ≡ 0) × (count (unheld id m) (claim_schedule id m rows).1 ≡ 0)
unfolding unheld is_open_to claim_schedule set_where
no_row id m [] h = (refl, refl)
no_row id m (s ∷ rows) h =
    let (a, b) = no_row id m rows (ground arith) in (ground (arith, a), ground (arith, b))

-- The granted claim holds the firing.
granted-held :
    (id : String) (m : ℕ) (rows : List Schedule)
    → count (id_is id) rows ≤ 1
    → count (is_open_to id m) rows ≡ 1
    → count (unheld id m) (claim_schedule id m rows).1 ≡ 0
unfolding unheld is_open_to claim_schedule set_where differs
granted-held id m [] one granted = refl
granted-held id m (s ∷ rows) one granted = elim (Bool-cases (s.id == id)) [
  | inl here ↦ let (a, b) = no_row id m rows (ground arith) in ground (arith, a, b)
  | inr off ↦
      let rest = granted-held id m rows (ground arith) (ground arith) in ground (arith, rest)
]

grant_counts :
    (id : String) (m : ℕ) (rows : List Schedule)
    → (claim_schedule id m rows).0 ≡ true
    → count (is_open_to id m) rows ≡ 1
unfolding claim_schedule
grant_counts id m rows h = ground arith

pub refused_claim :
    (id j : String) (m k : ℕ) (rows : List Schedule)
    → j ≡ id
    → k ≡ m
    → count (unheld id m) rows ≡ 0
    → (claim_schedule j k rows).0 ≡ false
unfolding claim_schedule
refused_claim id j m k rows e q held = rw (e, q) (ground (arith, refused_if_held id m rows held))

pub granted_claim :
    (id j : String) (m k : ℕ) (rows : List Schedule)
    → j ≡ id
    → k ≡ m
    → count (id_is id) rows ≤ 1
    → (claim_schedule j k rows).0 ≡ true
    → count (unheld id m) (claim_schedule j k rows).1 ≡ 0
granted_claim id j m k rows e q one granted =
    rw (e, q) (granted-held id m rows one (grant_counts id m rows (rw (e, q) at granted)))
