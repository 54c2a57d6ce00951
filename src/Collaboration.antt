-- ===== src/Collaboration.antt =====
-- The event log of a project's collaboration (python/sdpstudio_server/storage.py): the rows of
-- `collaboration_events` and the row of `collaboration_snapshots` for one project. An event is its
-- type and the rest of its JSON as a text; times are left out.
pub mod Numbers
pub mod Order
pub mod Replay
use sdp_studio.Prelude.{
  ℕ, suc, ◌+◌, ◌%◌, String, Bool, true, false, List, [], ◌∷◌, ◌++◌, map, Option, none, some, not,
  ◌&&◌, keep, count, length, ltb, leb, eqb, if◌then◌else◌, ◌==◌,
}

pub record Event : Type 0 where
  pub type : String
  pub body : String

pub record Row : Type 0 where
  pub seq : ℕ
  pub event : Event

-- `{"format": "yjs-update-bundle", "updates": updates}`, or a document that was saved
pub data Document : Type 0 where
  bundle : List Event → Document
  saved : String → Document

pub record Snapshot : Type 0 where
  pub seq : ℕ
  pub document : Document

pub record Log : Type 0 where
  pub events : List Row
  pub snapshot : Option Snapshot

abbrev pub max : ℕ → ℕ → ℕ
max a b = if leb a b then b else a

-- `MAX(seq)` of the events, where no row gives 0
unfoldable pub last_seq : List Row → ℕ
last_seq [] = 0
last_seq (r ∷ rows) = let rest = last_seq rows in max r.seq rest

abbrev pub snapshot_seq : Option Snapshot → ℕ
snapshot_seq none = 0
snapshot_seq (some s) = s.seq

-- `int(row["seq"] or 1)`: one more than every number of the two tables
unfoldable pub next_seq : Log → ℕ
unfolding last_seq
next_seq log = suc (max (last_seq log.events) (snapshot_seq log.snapshot))

abbrev pub is_update : Event → Bool
is_update e = e.type == "y_update"

-- `[event for row in rows if event.get("type") == "y_update"]`
unfoldable pub updates : List Row → List Event
updates [] = []
updates (r ∷ rows) = let rest = updates rows in if is_update r.event then r.event ∷ rest else rest

unfoldable pub place_row : Row → List Row → List Row
place_row r [] = r ∷ []
place_row r (q ∷ rows) = if leb r.seq q.seq then r ∷ q ∷ rows else q ∷ place_row r rows

-- `ORDER BY seq`
unfoldable pub by_seq : List Row → List Row
unfolding place_row
by_seq [] = []
by_seq (r ∷ rows) = place_row r (by_seq rows)

-- `append_collaboration_event`: the number of the event, and the two tables. Every hundredth event
-- replaces the snapshot by the updates of the table and deletes the rows up to its number.
unfoldable pub append_collaboration_event : Event → Log → ℕ × Log
unfolding next_seq updates by_seq
append_collaboration_event event log =
    let seq = next_seq log in
    let rows = log.events ++ record { seq = seq; event = event } ∷ [] in
    if eqb (seq % 100) 0
    then (
      seq,
      record {
        events = keep (λ r. not (leb r.seq seq)) rows;
        snapshot = some (record { seq = seq; document = bundle (updates (by_seq rows)) });
      },
    )
    else (seq, record { events = rows; snapshot = log.snapshot })

-- `collaboration_events`
unfoldable pub collaboration_events : ℕ → Log → List Row
unfolding by_seq
collaboration_events after log = by_seq (keep (λ r. ltb after r.seq) log.events)

-- `save_collaboration_snapshot`: without a number it takes the last one of the events.
unfoldable pub save_collaboration_snapshot : Document → Option ℕ → Log → ℕ × Log
unfolding last_seq
save_collaboration_snapshot document none log =
    let seq = last_seq log.events in
    (seq, record log { snapshot = some (record { seq = seq; document = document }) })
save_collaboration_snapshot document (some seq) log =
    (seq, record log { snapshot = some (record { seq = seq; document = document }) })

-- `compact_collaboration_events`: the number of rows deleted.
unfoldable pub compact_collaboration_events : ℕ → Log → ℕ × Log
compact_collaboration_events keep_after log = elim log.snapshot [
  | none ↦ (0, log)
  | some s ↦ if ltb s.seq keep_after then (0, log) else (
    count (λ r. ltb r.seq keep_after) log.events,
    record log { events = keep (λ r. not (ltb r.seq keep_after)) log.events },
  )
]

-- What `delete_project` leaves of the two tables for the project.
unfoldable pub cleared_log : Log → Log
cleared_log log = record { events = []; snapshot = none }
