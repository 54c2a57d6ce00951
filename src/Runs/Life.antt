-- ===== src/Runs/Life.antt =====
-- What the transition table promises of the changes of a run's status.
use sdp_studio.Prelude.{
  ℕ, zero, suc, ◌+◌, ◌≤◌, ◌≡◌, refl, sym, ap, ◌∙◌, subst, inl, inr, Bool-cases, Bool, true, false,
  not, ◌&&◌, ◌||◌, List, [], ◌∷◌, Memᴰ, all, true_of_all, ltb, leb, eqb, arith, if◌then◌else◌,
}
use sdp_studio.Runs.Status.{
  RunStatus, created, queued, preparing, validating, submitting, running, collecting_artifacts,
  succeeded, validation_failed, failed, cancelled, lost, ordinal, same_status,
  is_valid_run_transition, is_terminal,
}

-- From `s` to `t` by `n` changes of status.
pub data History (s : RunStatus) : RunStatus → ℕ → Type 0 where
  fresh : History s s 0
  change :
      {t u : RunStatus} {n : ℕ}
      → History s t n
      → is_valid_run_transition t u ≡ true
      → same_status t u ≡ false
      → History s u (suc n)

-- How far a status is: the terminal ones are last.
unfoldable pub stage : RunStatus → ℕ
stage s = if leb (ordinal s) 7 then ordinal s else 7

-- On the way to success.
unfoldable pub on_course : RunStatus → Bool
on_course s = leb (ordinal s) 7

abbrev statuses : List RunStatus
statuses =
    created ∷ queued ∷ preparing ∷ validating ∷ submitting ∷ running ∷ collecting_artifacts
    ∷ succeeded ∷ validation_failed ∷ failed ∷ cancelled ∷ lost ∷ []

listed : (s : RunStatus) → Memᴰ s statuses
listed created = Memᴰ.head refl
listed queued = Memᴰ.tail (Memᴰ.head refl)
listed preparing = Memᴰ.tail (Memᴰ.tail (Memᴰ.head refl))
listed validating = Memᴰ.tail (Memᴰ.tail (Memᴰ.tail (Memᴰ.head refl)))
listed submitting = Memᴰ.tail (Memᴰ.tail (Memᴰ.tail (Memᴰ.tail (Memᴰ.head refl))))
listed running = Memᴰ.tail (Memᴰ.tail (Memᴰ.tail (Memᴰ.tail (Memᴰ.tail (Memᴰ.head refl)))))
listed collecting_artifacts =
    Memᴰ.tail (Memᴰ.tail (Memᴰ.tail (Memᴰ.tail (Memᴰ.tail (Memᴰ.tail (Memᴰ.head refl))))))
listed succeeded =
    Memᴰ.tail
      (Memᴰ.tail (Memᴰ.tail (Memᴰ.tail (Memᴰ.tail (Memᴰ.tail (Memᴰ.tail (Memᴰ.head refl)))))))
listed validation_failed = Memᴰ.tail (
    Memᴰ.tail
      (Memᴰ.tail (Memᴰ.tail (Memᴰ.tail (Memᴰ.tail (Memᴰ.tail (Memᴰ.tail (Memᴰ.head refl))))))))
listed failed = Memᴰ.tail (
    Memᴰ.tail (
      Memᴰ.tail
        (Memᴰ.tail (Memᴰ.tail (Memᴰ.tail (Memᴰ.tail (Memᴰ.tail (Memᴰ.tail (Memᴰ.head refl)))))))))
listed cancelled = Memᴰ.tail (
    Memᴰ.tail (
      Memᴰ.tail (
        Memᴰ.tail (
          Memᴰ.tail (Memᴰ.tail (Memᴰ.tail (Memᴰ.tail (Memᴰ.tail (Memᴰ.tail (Memᴰ.head refl))))))))))
listed lost = Memᴰ.tail (
    Memᴰ.tail (
      Memᴰ.tail (
        Memᴰ.tail (
          Memᴰ.tail (
            Memᴰ.tail
              (Memᴰ.tail (Memᴰ.tail (Memᴰ.tail (Memᴰ.tail (Memᴰ.tail (Memᴰ.head refl)))))))))))

-- A test that holds of all statuses.
pub every : (p : RunStatus → Bool) → all p statuses ≡ true → (s : RunStatus) → p s ≡ true
every p h s = true_of_all p s statuses h (listed s)

pub every_two :
    (p : RunStatus → RunStatus → Bool)
    → all (λ s. all (p s) statuses) statuses ≡ true
    → (s t : RunStatus) → p s t ≡ true
every_two p h s t = every (p s) (every (λ u. all (p u) statuses) h s) t

-- Each entry of the table leads on, and to a status on the way to success by a single stage.
forward : RunStatus → RunStatus → Bool
unfolding is_valid_run_transition stage on_course
forward s t =
    not (is_valid_run_transition s t && not (same_status s t))
    || (ltb (stage s) (stage t)
        && (not (on_course t) || (on_course s && eqb (stage t) (suc (stage s)))))

forward_all : (s t : RunStatus) → forward s t ≡ true
forward_all = every_two forward (unfold forward in refl)

pub stage_top : (s : RunStatus) → leb (stage s) 7 ≡ true
stage_top = every (λ s. leb (stage s) 7) (unfold stage in refl)

terminal_stage : (s : RunStatus) → not (is_terminal s) || eqb (stage s) 7 ≡ true
terminal_stage =
    every (λ s. not (is_terminal s) || eqb (stage s) 7) (unfold is_terminal stage in refl)

pub History-stage : {s t : RunStatus} {n : ℕ} → History s t n → stage s + n ≤ stage t
unfolding forward
History-stage fresh = omega arith
History-stage (change {t} {u} h valid other) = ground (arith, forward_all t u, History-stage h)

-- A run changes its status at most seven times in all.
pub History-bound : {s t : RunStatus} {n : ℕ} → History s t n → n ≤ 7
History-bound {s} {t} h = ground (arith, History-stage h, stage_top t)

pub terminal-fresh : {s t : RunStatus} {n : ℕ} → History s t n → is_terminal s ≡ true → n ≡ 0
terminal-fresh {s} {t} h ended = ground (arith, History-stage h, stage_top t, terminal_stage s)

pub course_step :
    (t u : RunStatus)
    → is_valid_run_transition t u ≡ true
    → same_status t u ≡ false
    → on_course u ≡ true
    → (on_course t ≡ true) × (stage u ≡ suc (stage t))
unfolding forward
course_step t u valid other good = let f = forward_all t u in (ground arith, ground arith)

pub on_course-stage :
    {s t : RunStatus} {n : ℕ}
    → History s t n
    → on_course t ≡ true
    → (on_course s ≡ true) × (stage s + n ≡ stage t)
on_course-stage fresh h = (h, omega arith)
on_course-stage (change {t} {u} h valid other) good =
    let (before, next) = course_step t u valid other good in
    let (start, sum) = on_course-stage h before in (start, omega arith)

status_at : ℕ → List RunStatus → RunStatus
status_at n [] = lost
status_at zero (s ∷ ss) = s
status_at (suc n) (s ∷ ss) = status_at n ss

status_at-ordinal : (s : RunStatus) → status_at (ordinal s) statuses ≡ s
unfolding status_at
status_at-ordinal created = refl
status_at-ordinal queued = refl
status_at-ordinal preparing = refl
status_at-ordinal validating = refl
status_at-ordinal submitting = refl
status_at-ordinal running = refl
status_at-ordinal collecting_artifacts = refl
status_at-ordinal succeeded = refl
status_at-ordinal validation_failed = refl
status_at-ordinal failed = refl
status_at-ordinal cancelled = refl
status_at-ordinal lost = refl

ordinals_same : (m n : ℕ) → eqb m n ≡ true → m ≡ n
ordinals_same m n h = ground arith

pub same_status_eq : (s t : RunStatus) → same_status s t ≡ true → s ≡ t
same_status_eq s t h =
    sym (status_at-ordinal s)
    ∙ ap (λ n. status_at n statuses) (ordinals_same (ordinal s) (ordinal t) h)
    ∙ status_at-ordinal t

pub valid_same : (s : RunStatus) → is_valid_run_transition s s ≡ true
unfolding is_valid_run_transition
valid_same s = ground arith

pub valid_lost : (s : RunStatus) → is_terminal s ≡ false → is_valid_run_transition s lost ≡ true
valid_lost s h = ground (
  arith,
  every (λ t. is_terminal t || is_valid_run_transition t lost)
      (unfold is_terminal is_valid_run_transition in refl) s,
)

pub join : {s t u : RunStatus} {n m : ℕ} → History s t n → History t u m → History s u (n + m)
join {s} {t} {n = n} h fresh = subst (History s t) (omega arith) h
join {s} {n = n} h (change {u = v} {n = k} g valid other) =
    subst (History s v) (omega arith) (change (join h g) valid other)

-- A valid transition is no change or one.
pub History-of_valid :
    (s t : RunStatus) → is_valid_run_transition s t ≡ true → (n : ℕ) × History s t n
History-of_valid s t valid = elim (Bool-cases (same_status s t)) [
  | inl same ↦ (0, subst (λ u. History s u 0) (same_status_eq s t same) fresh)
  | inr other ↦ (1, change fresh valid other)
]

pub History-none : {s t : RunStatus} {n : ℕ} → History s t n → n ≡ 0 → t ≡ s
History-none fresh e = refl
History-none (change h valid other) e = absurd (omega arith)
