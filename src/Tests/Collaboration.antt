-- ===== src/Tests/Collaboration.antt =====
-- A log of two events behind a snapshot, at its hundredth event and after compaction.
use sdp_studio.Prelude.{
  String, ◌%◌, ◌≡◌, refl, [], ◌∷◌, ◌++◌, some, none, if◌then◌else◌, eqb, arith,
}
use sdp_studio.Collaboration.{
  Event, Row, bundle, saved, Snapshot, Log, next_seq, updates, collaboration_events,
  append_collaboration_event, save_collaboration_snapshot, compact_collaboration_events,
  cleared_log,
}
use sdp_studio.Collaboration.Order.{Above, done, next}
use sdp_studio.Collaboration.Replay.{
  replay, own, append_collaboration_event-replay, compact_collaboration_events-replay,
}

abbrev update : String → Event
update delta = record { type = "y_update"; body = delta }

abbrev old_update : Event
old_update = update "first"

abbrev snapshot : Snapshot
snapshot = record { seq = 100; document = bundle (old_update ∷ []) }

abbrev first_row : Row
first_row = record { seq = 198; event = update "a" }

abbrev second_row : Row
second_row = record { seq = 199; event = record { type = "pipeline_saved"; body = "r1" } }

abbrev log : Log
log = record { events = first_row ∷ second_row ∷ []; snapshot = some snapshot }

log_ordered : Above 0 log.events
log_ordered = next (omega arith) (next (omega arith) done)

-- The two-hundredth event drops the update of the snapshot before it.
replay_before : replay log ≡ old_update ∷ update "a" ∷ []
unfolding updates collaboration_events
replay_before = refl

replay_after : replay (append_collaboration_event (update "b") log).1 ≡ update "a" ∷ update "b" ∷ []
unfolding append_collaboration_event collaboration_events
replay_after = refl

append_collaboration_event-replay_example :
    replay (append_collaboration_event (update "b") log).1
    ≡ (if eqb (next_seq log % 100) 0 then updates log.events else replay log) ++ own (update "b")
append_collaboration_event-replay_example =
    append_collaboration_event-replay (update "b") log log_ordered

compact_collaboration_events-replay_example :
    replay (compact_collaboration_events 100 log).1 ≡ replay log
compact_collaboration_events-replay_example = compact_collaboration_events-replay 100 log

-- Once the rows of all events have been compacted away, saving a snapshot without a number starts the
-- numbers again.
restarted :
    (append_collaboration_event
      (update "b")
      (save_collaboration_snapshot
        (saved "d")
        none
        (record { events = []; snapshot = some snapshot })).1).0
    ≡ 1
unfolding append_collaboration_event save_collaboration_snapshot next_seq
restarted = refl

cleared : collaboration_events 0 (cleared_log log) ≡ []
unfolding cleared_log collaboration_events
cleared = refl
