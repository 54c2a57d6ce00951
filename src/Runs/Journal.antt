-- ===== src/Runs/Journal.antt =====
-- The events of a run are numbered from one, and a client that asks for those after a number gets
-- what it has not seen.
use sdp_studio.Prelude.{
  ℕ, zero, suc, ◌+◌, ◌≤◌, String, ◌≡◌, refl, sym, ap, ◌∙◌, Bool, Bool-cases, inl, inr, true, false,
  ◌&&◌, not, contains, contains_same, map, List, [], ◌∷◌, ◌++◌, keep, drop, length, leb, ltb,
  if◌then◌else◌, arith, ◌==◌, eq_iff, subst,
}
use sdp_studio.Runs.Store.{Run, Store, RunEvent, delete_project}
use sdp_studio.Runs.Recovery.{max, max_seq, add_run_event, place_event, by_seq, run_events}

-- What was reported of a run, in the order in which it was.
abbrev pub log : String → List RunEvent → List RunEvent
log run_id events = keep (λ e. e.run_id == run_id) events

-- Numbered from `k` on.
pub data Numbered : ℕ → List RunEvent → Type 0 where
  done : {k : ℕ} → Numbered k []
  next :
      {k : ℕ} {e : RunEvent} {es : List RunEvent}
      → e.seq ≡ k
      → Numbered (suc k) es
      → Numbered k (e ∷ es)

abbrev pub IsNumbered : List RunEvent → Type 0
IsNumbered events = (run_id : String) → Numbered 1 (log run_id events)

highest : List RunEvent → ℕ
highest [] = 0
highest (e ∷ es) = max e.seq (highest es)

max_seq_lem :
    (run_id : String) (events : List RunEvent) → max_seq run_id events ≡ highest (log run_id events)
unfolding max_seq highest
max_seq_lem run_id [] = refl
max_seq_lem run_id (e ∷ events) = ground (arith, max_seq_lem run_id events)

highest-Numbered :
    (k : ℕ) (es : List RunEvent)
    → Numbered (suc k) es
    → (highest es ≡ (if leb (length es) 0 then 0 else k + length es))
unfolding highest
highest-Numbered k [] done = refl
highest-Numbered k (e ∷ es) (next q h) = ground (arith, highest-Numbered (suc k) es h)

keep-append :
    (p : RunEvent → Bool) (xs ys : List RunEvent) → keep p (xs ++ ys) ≡ keep p xs ++ keep p ys
keep-append p [] ys = refl
keep-append p (x ∷ xs) ys = ground (arith, keep-append p xs ys)

Numbered-append :
    (k : ℕ) (es : List RunEvent) (e : RunEvent)
    → Numbered k es
    → e.seq ≡ k + length es
    → Numbered k (es ++ e ∷ [])
Numbered-append k [] e done q = next (omega (arith, q)) done
Numbered-append k (d ∷ es) e (next p h) q =
    next p (Numbered-append (suc k) es e h (omega (arith, q)))

-- The number that `add_run_event` returns counts the events of its run.
pub add_run_event-seq :
    (run_id kind message : String) (now : ℕ) (events : List RunEvent)
    → IsNumbered events
    → (add_run_event run_id kind message now events).0 ≡ suc (length (log run_id events))
unfolding add_run_event
add_run_event-seq run_id kind message now events h =
    ground (arith, max_seq_lem run_id events, highest-Numbered 0 (log run_id events) (h run_id))

log_same :
    (run_id : String) (events : List RunEvent) (e : RunEvent)
    → e.run_id == run_id ≡ true
    → log run_id (events ++ e ∷ []) ≡ log run_id events ++ e ∷ []
log_same run_id events e h = keep-append (λ d. d.run_id == run_id) events (e ∷ []) ∙ rw h refl

log_other :
    (run_id : String) (events : List RunEvent) (e : RunEvent)
    → e.run_id == run_id ≡ false
    → log run_id (events ++ e ∷ []) ≡ log run_id events ++ []
log_other run_id events e h = keep-append (λ d. d.run_id == run_id) events (e ∷ []) ∙ rw h refl

append_none : (xs : List RunEvent) → xs ++ [] ≡ xs
append_none [] = refl
append_none (x ∷ xs) = ap (λ ys. x ∷ ys) (append_none xs)

-- Reporting an event keeps every run's events numbered.
pub add_run_event-IsNumbered :
    (run_id kind message : String) (now : ℕ) (events : List RunEvent)
    → IsNumbered events
    → IsNumbered (add_run_event run_id kind message now events).1
unfolding add_run_event
add_run_event-IsNumbered run_id kind message now events h = λ id.
    let e : RunEvent = record {
      run_id = run_id;
      seq = suc (max_seq run_id events);
      ts = now;
      kind = kind;
      message = message;
    } in
    elim (Bool-cases (run_id == id)) [
      | inl same ↦ subst (Numbered 1) (sym (log_same id events e same)) (
          Numbered-append 1 (log id events) e (h id) (
            ground (
              arith,
              max_seq_lem id events,
              highest-Numbered 0 (log id events) (h id),
              ap (λ i. max_seq i events) ((eq_iff run_id id).0 same),
            )))
      | inr other ↦
          subst (Numbered 1) (sym (log_other id events e other ∙ append_none (log id events)))
            (h id)
    ]

place_event-Numbered :
    (k : ℕ) (e : RunEvent) (es : List RunEvent)
    → e.seq ≡ k
    → Numbered (suc k) es
    → place_event e es ≡ e ∷ es
unfolding place_event
place_event-Numbered k e [] q done = refl
place_event-Numbered k e (d ∷ es) q (next p h) = ground (arith, q, p)

by_seq-Numbered : (k : ℕ) (es : List RunEvent) → Numbered k es → by_seq es ≡ es
unfolding by_seq
by_seq-Numbered k [] done = refl
by_seq-Numbered k (e ∷ es) (next q h) =
    ap (place_event e) (by_seq-Numbered (suc k) es h) ∙ place_event-Numbered k e es q h

keep_unseen :
    (k after : ℕ) (es : List RunEvent)
    → after ≤ k
    → Numbered (suc k) es
    → keep (λ e. ltb after e.seq) es ≡ es
keep_unseen k after [] low done = refl
keep_unseen k after (e ∷ es) low (next q h) =
    ground (arith, q, keep_unseen (suc k) after es (omega arith) h)

keep-drop :
    (k n after : ℕ) (es : List RunEvent)
    → after ≡ k + n
    → Numbered (suc k) es
    → keep (λ e. ltb after e.seq) es ≡ drop n es
keep-drop k zero after es sum h = keep_unseen k after es (omega arith) h
keep-drop k (suc n) after [] sum h = refl
keep-drop k (suc n) after (e ∷ es) sum (next q h) =
    ground (arith, q, keep-drop (suc k) n after es (omega arith) h)

keep-keep :
    (p q : RunEvent → Bool) (es : List RunEvent) → keep (λ e. p e && q e) es ≡ keep q (keep p es)
keep-keep p q [] = refl
keep-keep p q (e ∷ es) = ground (arith, keep-keep p q es)

drop-Numbered : (k n : ℕ) (es : List RunEvent) → Numbered k es → Numbered (k + n) (drop n es)
drop-Numbered k zero es h = subst (λ i. Numbered i es) (omega arith) h
drop-Numbered k (suc n) [] h = done
drop-Numbered k (suc n) (e ∷ es) (next q h) =
    subst (λ i. Numbered i (drop n es)) (omega arith) (drop-Numbered (suc k) n es h)

-- With the events of each run numbered from one, `run_events` after the number `n` returns the
-- events of the run in order without the first `n`.
pub run_events_exact :
    (run_id : String) (n : ℕ) (events : List RunEvent)
    → IsNumbered events
    → run_events run_id n events ≡ drop n (log run_id events)
unfolding run_events
run_events_exact run_id n events h =
    let kept =
      keep-keep (λ e. e.run_id == run_id) (λ e. ltb n e.seq) events
      ∙ keep-drop 0 n n (log run_id events) (omega arith) (h run_id) in
    ap by_seq kept
    ∙ by_seq-Numbered (1 + n) (drop n (log run_id events))
        (drop-Numbered 1 n (log run_id events) (h run_id))

log-keep :
    (ids : List String) (id : String) (events : List RunEvent)
    → log id (keep (λ e. not (contains ids e.run_id)) events)
      ≡ (if contains ids id then [] else log id events)
log-keep ids id [] = ground arith
log-keep ids id (e ∷ events) =
    ground (arith, log-keep ids id events, eq_iff e.run_id id, contains_same ids e.run_id id)

-- The deletion of a project takes the events of a run altogether or leaves them.
pub delete_project-IsNumbered :
    (project_id : String) (s : Store)
    → IsNumbered s.run_events
    → IsNumbered (delete_project project_id s).run_events
unfolding delete_project
delete_project-IsNumbered project_id s h = λ id.
    let ids = map (λ (r : Run). r.id) (keep (λ r. r.project_id == project_id) s.runs) in
    subst (Numbered 1) (sym (log-keep ids id s.run_events)) (elim (Bool-cases (contains ids id)) [
      | inl gone ↦ rw gone done
      | inr stays ↦ rw stays (h id)
    ])
