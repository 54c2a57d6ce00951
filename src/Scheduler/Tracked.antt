-- ===== src/Scheduler/Tracked.antt =====
-- What a worker tracks of its dispatches, and that dispatches which start and end keep it.
use sdp_studio.Prelude.{
  ℕ, ◌+◌, ◌≤◌, ◌<◌, String, ◌≡◌, refl, sym, ap, ◌∙◌, inl, inr, Bool, Bool-cases, true, false, ◌&&◌,
  not, List, [], ◌∷◌, none, some, Memᴰ, count, count-pos, mem_of_keep, count-zero, false_of_count,
  contains_same, keep, contains, eqb, ◌==◌, eq_iff, eq_refl, if◌then◌else◌, arith, subst,
}
use sdp_studio.Prelude.Dict.{Dict, lookup, lookup-insert}
use sdp_studio.Scheduler.{Worker, discard, pop, dispatch_finished, dispatch, cancel}

abbrev task_is : ℕ → ℕ × String → Bool
task_is task (t, _) = eqb t task

abbrev runs_for : String → ℕ × String → Bool
runs_for id (_, j) = j == id

-- `_running` holds exactly the schedules with a dispatch under way, of which there is one for each;
-- `_running_tasks` holds it, and no two dispatches have one number.
pub record Tracked (w : Worker) : Type 0 where
  pub marked : (id : String) → count (runs_for id) w.live ≡ (if contains w.running id then 1 else 0)
  pub kept :
      (task : ℕ) (id : String) → Memᴰ (task, id) w.live → lookup id w.running_tasks ≡ some task
  pub fresh : (task : ℕ) (id : String) → Memᴰ (task, id) w.live → task < w.next_task
  pub apart : (task : ℕ) → count (task_is task) w.live ≤ 1

contains-discard :
    (id v : String) (ids : List String)
    → contains (discard id ids) v ≡ contains ids v && not (id == v)
unfolding discard
contains-discard id v [] = refl
contains-discard id v (x ∷ ids) =
    ground (arith, contains-discard id v ids, eq_iff x id, eq_iff x v, eq_iff id v)

lookup-pop :
    (id v : String) (d : Dict ℕ) → lookup v (pop id d) ≡ (if id == v then none else lookup v d)
unfolding pop lookup
lookup-pop id v [] = ground arith
lookup-pop id v ((k, n) ∷ d) =
    ground (arith, lookup-pop id v d, eq_iff k id, eq_iff k v, eq_iff id v)

abbrev other_than : ℕ → ℕ × String → Bool
other_than task (t, _) = not (eqb t task)

count-no_task :
    (task : ℕ) (v : String) (live : List (ℕ × String))
    → count (task_is task) live ≡ 0
    → count (runs_for v) (keep (other_than task) live) ≡ count (runs_for v) live
count-no_task task v [] none_left = refl
count-no_task task v ((t, j) ∷ live) none_left =
    ground (arith, count-no_task task v live (ground arith))

-- Taking out the one dispatch of a number.
count-without :
    (task : ℕ) (id v : String) (live : List (ℕ × String))
    → count (task_is task) live ≤ 1
    → Memᴰ (task, id) live
    → count (runs_for v) live
      ≡ (if id == v then 1 else 0) + count (runs_for v) (keep (other_than task) live)
count-without task id v [] one m = elim m [ ]
count-without task id v ((t, j) ∷ live) one (Memᴰ.head e) =
    let same_task : task ≡ t = ap (λ (x : ℕ × String). x.0) e in
    let same_id : (id == v) ≡ (j == v) = ap (λ (x : ℕ × String). x.1 == v) e in
    ground (arith, same_task, same_id, count-no_task task v live (ground (arith, same_task)))
count-without task id v ((t, j) ∷ live) one (Memᴰ.tail m) =
    let here = count-pos (task_is task) (task, id) live m (ground arith) in
    ground (arith, here, count-without task id v live (ground arith) m)

count-keep_le :
    (p q : ℕ × String → Bool) (live : List (ℕ × String)) → count p (keep q live) ≤ count p live
count-keep_le p q [] = omega arith
count-keep_le p q (x ∷ live) = ground (arith, count-keep_le p q live)

mem_of_count :
    (p : ℕ × String → Bool) (live : List (ℕ × String))
    → 0 < count p live
    → (x : ℕ × String) × Memᴰ x live × (p x ≡ true)
mem_of_count p [] h = absurd (omega arith)
mem_of_count p (x ∷ live) h = elim (Bool-cases (p x)) [
  | inl here ↦ (x, Memᴰ.head refl, here)
  | inr off ↦ let (y, m, holds) = mem_of_count p live (ground arith) in (y, Memᴰ.tail m, holds)
]

pub finished-Tracked :
    (w : Worker) (task : ℕ) (id : String)
    → Tracked w
    → Memᴰ (task, id) w.live
    → Tracked (dispatch_finished task id w)
unfolding dispatch_finished
finished-Tracked w task id h m = record {
  marked = λ v. ground (
    arith,
    h.marked v,
    h.marked id,
    contains-discard id v w.running,
    count-without task id v w.live (h.apart task) m,
    eq_iff id v,
    contains_same w.running id v,
  );
  kept = λ t v n.
      let (inside, other) = mem_of_keep (other_than task) (t, v) w.live n in
      elim (Bool-cases (id == v)) [
        | inl here ↦ absurd (
            ground (
              arith,
              h.kept task id m,
              h.kept t v inside,
              ap (λ k. lookup k w.running_tasks) ((eq_iff id v).0 here),
            ))
        | inr off ↦ lookup-pop id v w.running_tasks ∙ rw off (h.kept t v inside)
      ];
  fresh = λ t v n. h.fresh t v (mem_of_keep (other_than task) (t, v) w.live n).0;
  apart = λ t. omega (arith, h.apart t, count-keep_le (task_is t) (other_than task) w.live);
}

-- A schedule that is not marked has no dispatch under way.
idle-id :
    (w : Worker) (id : String)
    → Tracked w
    → contains w.running id ≡ false
    → (t : ℕ) (v : String) → Memᴰ (t, v) w.live
    → (id == v) ≡ false
idle-id w id h idle t v n =
    let none_left : count (runs_for id) w.live ≡ 0 = ground (arith, h.marked id) in
    let off : (v == id) ≡ false = false_of_count (runs_for id) (t, v) w.live none_left n in
    ground (arith, eq_iff id v, eq_iff v id)

pub dispatch-Tracked :
    (w : Worker) (id : String) → Tracked w → contains w.running id ≡ false → Tracked (dispatch id w)
unfolding dispatch
dispatch-Tracked w id h idle = record {
  marked = λ v. ground (arith, h.marked v, eq_iff id v);
  kept = λ t v n. elim n [
    | Memᴰ.head e ↦
        let same_id : id ≡ v = sym (ap (λ (x : ℕ × String). x.1) e) in
        let same_task : t ≡ w.next_task = ap (λ (x : ℕ × String). x.0) e in
        lookup-insert id v w.next_task w.running_tasks
        ∙ rw ((eq_iff id v).1 same_id) (ap some (sym same_task))
    | Memᴰ.tail m ↦
        lookup-insert id v w.next_task w.running_tasks
        ∙ rw (idle-id w id h idle t v m) (h.kept t v m)
  ];
  fresh = λ t v n. elim n [
    | Memᴰ.head e ↦ let same_task : t ≡ w.next_task = ap (λ (x : ℕ × String). x.0) e in omega arith
    | Memᴰ.tail m ↦ let below = h.fresh t v m in omega arith
  ];
  apart = λ t.
      let unused : t ≡ w.next_task → count (task_is t) w.live ≡ 0 = λ q.
        count-zero (task_is t) w.live
          (λ x n. let below = h.fresh x.0 x.1 n in ground (arith, below)) in
      ground (arith, h.apart t, unused);
}

-- The dispatch that is tracked for a marked schedule ends, and the schedule is marked no more.
pub cancel-Tracked :
    (w : Worker) (id : String)
    → Tracked w
    → contains w.running id ≡ true
    → Tracked (cancel id (lookup id w.running_tasks) w)
      × (contains (cancel id (lookup id w.running_tasks) w).running id ≡ false)
unfolding cancel dispatch_finished
cancel-Tracked w id h busy =
    let one : 0 < count (runs_for id) w.live = ground (arith, h.marked id) in
    let ((task, other), m, same) = mem_of_count (runs_for id) w.live one in
    let n : Memᴰ (task, id) w.live =
      subst (λ v. Memᴰ (task, v) w.live) ((eq_iff other id).0 same) m in
    rw (h.kept task id n)
      (finished-Tracked w task id h n, ground (arith, contains-discard id id w.running, eq_refl id))
