-- ===== src/Collaboration/Replay.antt =====
-- What a client sees that connects: the updates of the snapshot and of the events after it.
use sdp_studio.Prelude.{
  ℕ, ◌%◌, ◌≤◌, ◌≡◌, refl, sym, ap, ◌∙◌, Bool, Bool-cases, inl, inr, not, List, [], ◌∷◌, ◌++◌, keep,
  Option, none, some, arith, if◌then◌else◌, leb, ltb, eqb,
}
use sdp_studio.Collaboration.{
  Event, Row, bundle, saved, Snapshot, Log, last_seq, snapshot_seq, next_seq, is_update, updates,
  by_seq, append_collaboration_event, collaboration_events, compact_collaboration_events,
}
use sdp_studio.Collaboration.Order.{
  Above, keep-Above, by_seq-Above, Above-append, updates-append, keep-append, append_assoc,
  append-none, uncovered_none, last-append,
}

abbrev pub bundled : Option Snapshot → List Event
bundled none = []
bundled (some s) = elim s.document [ bundle es ↦ es | saved d ↦ [] ]

-- The updates that the connection of a client replays.
abbrev pub replay : Log → List Event
replay log = bundled log.snapshot ++ updates (collaboration_events (snapshot_seq log.snapshot) log)

-- Compaction deletes only rows that no client replays.
keep-compacted :
    (rows : List Row) (anchor keep_after : ℕ)
    → keep_after ≤ anchor
    → keep (λ r. ltb anchor r.seq) (keep (λ r. not (ltb r.seq keep_after)) rows)
      ≡ keep (λ r. ltb anchor r.seq) rows
keep-compacted [] anchor keep_after h = refl
keep-compacted (r ∷ rows) anchor keep_after h =
    ground (arith, keep-compacted rows anchor keep_after h)

compact_lem :
    (keep_after : ℕ) (events : List Row) (snapshot : Option Snapshot)
    → replay
        (compact_collaboration_events keep_after
          (record { events = events; snapshot = snapshot })).1
      ≡ replay (record { events = events; snapshot = snapshot })
unfolding compact_collaboration_events collaboration_events
compact_lem keep_after events none = refl
compact_lem keep_after events (some s) = elim (Bool-cases (ltb s.seq keep_after)) [
  | inl early ↦ rw early refl
  | inr covered ↦ rw covered (
      ap (λ rows. bundled (some s) ++ updates (by_seq rows))
        (keep-compacted events s.seq keep_after (ground arith)))
]

-- Compaction changes nothing of what a client that connects replays, whatever number it is given.
pub compact_collaboration_events-replay :
    (keep_after : ℕ) (log : Log)
    → replay (compact_collaboration_events keep_after log).1 ≡ replay log
compact_collaboration_events-replay keep_after log = compact_lem keep_after log.events log.snapshot

-- The event itself if it is an update.
abbrev pub own : Event → List Event
own e = if is_update e then e ∷ [] else []

module _ (e : Event) (log : Log) (ordered : Above 0 log.events) where
  abbrev row : Row
  row = record { seq = next_seq log; event = e }

  abbrev rows : List Row
  rows = log.events ++ row ∷ []

  rows-Above : Above 0 rows
  unfolding next_seq
  rows-Above = Above-append 0 log.events row ordered (omega arith) (ground arith)

  updates-rows : updates rows ≡ updates log.events ++ own e
  unfolding updates
  updates-rows = updates-append log.events (row ∷ [])

  -- The events of the log stay in the order of their numbers.
  pub append_collaboration_event-Above : Above 0 (append_collaboration_event e log).1.events
  unfolding append_collaboration_event
  append_collaboration_event-Above = elim (Bool-cases (eqb (next_seq log % 100) 0)) [
    | inl full ↦ rw full (keep-Above (λ r. not (leb r.seq (next_seq log))) 0 rows rows-Above)
    | inr other ↦ rw other rows-Above
  ]

  last_rows : last_seq rows ≤ next_seq log
  unfolding next_seq
  last_rows = ground (arith, last-append log.events row)

  -- The case of each hundredth event.
  full_replay :
      updates (by_seq rows)
        ++ updates (
            by_seq (
              keep
                (λ r. ltb (next_seq log) r.seq)
                (keep (λ r. not (leb r.seq (next_seq log))) rows)))
      ≡ updates log.events ++ own e
  unfolding updates by_seq
  full_replay =
      let none_left = uncovered_none rows (next_seq log) last_rows in
      let behind = ap (λ l. updates (by_seq (keep (λ r. ltb (next_seq log) r.seq) l))) none_left in
      let front = ap updates (by_seq-Above 0 rows rows-Above) ∙ updates-rows in
      ap (λ l. updates (by_seq rows) ++ l) behind ∙ append-none (updates (by_seq rows)) ∙ front

  abbrev seen : Row → Bool
  seen r = ltb (snapshot_seq log.snapshot) r.seq

  row-seen : keep seen (row ∷ []) ≡ row ∷ []
  unfolding next_seq
  row-seen = ground arith

  -- The case of every other event.
  other_replay : bundled log.snapshot ++ updates (by_seq (keep seen rows)) ≡ replay log ++ own e
  unfolding updates collaboration_events
  other_replay =
      let after =
        keep-append seen log.events (row ∷ []) ∙ ap (λ l. keep seen log.events ++ l) row-seen in
      let in_order = by_seq-Above 0 (keep seen rows) (keep-Above seen 0 rows rows-Above) in
      let before = by_seq-Above 0 (keep seen log.events) (keep-Above seen 0 log.events ordered) in
      let parts =
        ap updates (in_order ∙ after)
        ∙ updates-append (keep seen log.events) (row ∷ [])
        ∙ ap (λ l. updates l ++ own e) (sym before) in
      ap (λ l. bundled log.snapshot ++ l) parts
      ∙ sym (append_assoc (bundled log.snapshot) (updates (by_seq (keep seen log.events))) (own e))

  -- On a log in the order of its numbers, a client that connects after an event was appended replays
  -- what it would have replayed before and the event if it is an update, except after each hundredth
  -- event: then it replays the updates of the event table, without those of the snapshot before.
  pub append_collaboration_event-replay :
      replay (append_collaboration_event e log).1
      ≡ (if eqb (next_seq log % 100) 0 then updates log.events else replay log) ++ own e
  unfolding append_collaboration_event collaboration_events
  append_collaboration_event-replay = elim (Bool-cases (eqb (next_seq log % 100) 0)) [
    | inl full ↦ rw full full_replay
    | inr other ↦ rw other other_replay
  ]
