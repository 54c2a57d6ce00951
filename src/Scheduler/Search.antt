-- ===== src/Scheduler/Search.antt =====
-- The search for the next minute finds the first that is due, within a year.
use sdp_studio.Prelude.{
  ℕ, zero, suc, ◌+◌, ◌≤◌, ◌<◌, String, ◌≡◌, refl, inl, inr, Bool, Bool-cases, true, false, Option,
  none, some, ltb, arith, subst,
}
use sdp_studio.Scheduler.{minutes_of_a_year, search, next_fire}
use sdp_studio.Scheduler.Clock.{schedule_matches}

-- No minute from `low` on and before `high` is due.
abbrev pub Quiet : (ℕ → Bool) → ℕ → ℕ → Type 0
Quiet due low high = (m : ℕ) → low ≤ m → m < high → due m ≡ false

Quiet-suc :
    (due : ℕ → Bool) (low high : ℕ)
    → due low ≡ false
    → Quiet due (suc low) high
    → Quiet due low high
Quiet-suc due low high off later m above below = elim (Bool-cases (ltb low m)) [
  | inl beyond ↦ later m (ground arith) below
  | inr here ↦ let q : low ≡ m = ground arith in subst (λ k. due k ≡ false) q off
]

-- The first minute that is due, from the current one, or none in that many minutes.
abbrev pub Finds : (ℕ → Bool) → ℕ → ℕ → Option ℕ → Type 0
Finds due current high none = Quiet due current high
Finds due current high (some t) = (current ≤ t) × (t < high) × (due t ≡ true) × Quiet due current t

Finds-suc :
    (due : ℕ → Bool) (current high : ℕ) (o : Option ℕ)
    → due current ≡ false
    → Finds due (suc current) high o
    → Finds due current high o
Finds-suc due current high none off later = Quiet-suc due current high off later
Finds-suc due current high (some t) off (from, to, on, quiet) =
    (omega arith, to, on, Quiet-suc due current t off quiet)

search-Finds :
    (fuel : ℕ) (due : ℕ → Bool) (current high : ℕ)
    → current + fuel ≡ high
    → Finds due current high (search fuel due current)
unfolding search
search-Finds zero due current high e = λ m above below. absurd (omega arith)
search-Finds (suc fuel) due current high e = elim (Bool-cases (due current)) [
  | inl on ↦ rw on (omega arith, omega arith, on, λ m above below. absurd (omega arith))
  | inr off ↦ rw off (
      Finds-suc due current high (search fuel due (suc current)) off
        (search-Finds fuel due (suc current) high (omega arith)))
]

-- The next minute of a schedule is the first after the given one that its cron text matches, if one
-- of the 366 * 24 * 60 minutes after it does, and there is none otherwise.
pub next_fire-first :
    (cron : String) (after : ℕ)
    → Finds (schedule_matches cron) (suc after) (suc after + 527040) (next_fire cron after)
unfolding next_fire
next_fire-first cron after =
    search-Finds minutes_of_a_year (schedule_matches cron) (suc after) (suc after + 527040) refl
