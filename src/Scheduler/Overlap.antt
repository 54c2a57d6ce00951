-- ===== src/Scheduler/Overlap.antt =====
-- Runs of one schedule do not overlap, in whatever order the worker considers schedules and dispatches
-- end.
use sdp_studio.Prelude.{
  ℕ, ◌≤◌, String, ◌≡◌, refl, inl, inr, Bool, Bool-cases, true, false, ◌&&◌, ◌||◌, [], some, Memᴰ,
  count, contains, ◌==◌, if◌then◌else◌, arith,
}
use sdp_studio.Prelude.Dict.{lookup}
use sdp_studio.Scheduler.{Schedule, Worker, dispatch_finished, cancel, overlap, is_due, consider}
use sdp_studio.Scheduler.Tracked.{Tracked, finished-Tracked, dispatch-Tracked, cancel-Tracked}

-- What `create_schedule` of storage.py lets a schedule have; `update_schedule` does not look at it.
abbrev pub IsGuarded : Schedule → Type 0
IsGuarded s =
    s.concurrency_policy == "skip"
      || s.concurrency_policy == "forbid"
      || s.concurrency_policy == "replace"
    ≡ true

-- The worker considers a schedule with such a policy, or a dispatch that is under way ends.
pub data Step (claim : String → ℕ → Bool) (w : Worker) : Worker → Type 0 where
  considers :
      (starting : Bool) (moment : ℕ) (s : Schedule)
      → IsGuarded s
      → Step claim w (consider claim starting moment s w)
  ends :
      (task : ℕ) (id : String) → Memᴰ (task, id) w.live → Step claim w (dispatch_finished task id w)

pub data Reach (claim : String → ℕ → Bool) : Worker → Type 0 where
  begin : (w : Worker) → w.running ≡ [] → w.live ≡ [] → Reach claim w
  step : {w v : Worker} → Reach claim w → Step claim w v → Reach claim v

-- How many dispatches of a schedule are under way.
abbrev pub live_of : Worker → String → ℕ
live_of w id = count (λ (t, j). j == id) w.live

overlap-Tracked :
    (w : Worker) (s : Schedule)
    → IsGuarded s
    → Tracked w
    → contains w.running s.id ≡ true
    → Tracked (overlap s.concurrency_policy s.id w)
unfolding overlap
overlap-Tracked w s guarded h busy =
    elim (Bool-cases (s.concurrency_policy == "skip" || s.concurrency_policy == "forbid")) [
      | inl passed ↦ rw passed h
      | inr other ↦
          let replaces : s.concurrency_policy == "replace" ≡ true = ground (arith, guarded) in
          let (ended, idle) = cancel-Tracked w s.id h busy in
          rw (other, replaces)
            (dispatch-Tracked (cancel s.id (lookup s.id w.running_tasks) w) s.id ended idle)
    ]

if_Tracked :
    (b : Bool) (w v : Worker)
    → (b ≡ true → Tracked w)
    → (b ≡ false → Tracked v)
    → Tracked (if b then w else v)
if_Tracked true w v h k = h refl
if_Tracked false w v h k = k refl

consider-Tracked :
    (claim : String → ℕ → Bool) (starting : Bool) (moment : ℕ) (s : Schedule) (w : Worker)
    → IsGuarded s
    → Tracked w
    → Tracked (consider claim starting moment s w)
unfolding consider
consider-Tracked claim starting moment s w guarded h =
    if_Tracked (s.enabled && is_due s starting moment && claim s.id moment) _ w
      (λ _.
        if_Tracked (contains w.running s.id) _ _ (overlap-Tracked w s guarded h)
          (dispatch-Tracked w s.id h))
      (λ _. h)

begin-Tracked : (w : Worker) → w.running ≡ [] → w.live ≡ [] → Tracked w
begin-Tracked w unmarked none_live = record {
  marked = λ id. rw (unmarked, none_live) refl;
  kept = λ task id m. elim (rw none_live at m) [ ];
  fresh = λ task id m. elim (rw none_live at m) [ ];
  apart = λ task. rw none_live (omega arith);
}

pub Reach-Tracked : (claim : String → ℕ → Bool) (w : Worker) → Reach claim w → Tracked w
Reach-Tracked claim w (begin v unmarked none_live) = begin-Tracked v unmarked none_live
Reach-Tracked claim w (step r (considers starting moment s guarded)) =
    consider-Tracked claim starting moment s _ guarded (Reach-Tracked claim _ r)
Reach-Tracked claim w (step r (ends task id m)) =
    finished-Tracked _ task id (Reach-Tracked claim _ r) m

-- However the worker considers schedules with one of the three policies and dispatches end, from an
-- idle worker: a schedule has at most one dispatch under way, it has one if `_running` holds the
-- schedule and none otherwise, and that one is the task that `_running_tasks` holds for it.
pub one_dispatch_per_schedule :
    (claim : String → ℕ → Bool) (w : Worker) (id : String)
    → Reach claim w
    → (live_of w id ≤ 1)
      × (live_of w id ≡ (if contains w.running id then 1 else 0))
      × ((task : ℕ) → Memᴰ (task, id) w.live → lookup id w.running_tasks ≡ some task)
one_dispatch_per_schedule claim w id r =
    let h = Reach-Tracked claim w r in
    (ground (arith, h.marked id), h.marked id, λ task m. h.kept task id m)
