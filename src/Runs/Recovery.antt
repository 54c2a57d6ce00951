-- ===== src/Runs/Recovery.antt =====
-- `reconcile_non_terminal_runs`, `add_run_event` and `run_events` of
-- python/sdpstudio_server/storage.py.
use sdp_studio.Prelude.{
  ℕ, suc, String, List, [], ◌∷◌, ◌++◌, some, not, ◌&&◌, keep, ltb, leb, if◌then◌else◌, ◌==◌,
}
use sdp_studio.Runs.Status.{lost, is_terminal}
use sdp_studio.Runs.Store.{Run, RunEvent, Store, update_where}

abbrev pub max : ℕ → ℕ → ℕ
max a b = if leb a b then b else a

-- `SELECT COALESCE(MAX(seq),0) FROM run_events WHERE run_id=?`
unfoldable pub max_seq : String → List RunEvent → ℕ
max_seq run_id [] = 0
max_seq run_id (e ∷ events) =
    let rest = max_seq run_id events in if e.run_id == run_id then max e.seq rest else rest

-- `add_run_event`: the number it returns and the table.
unfoldable pub add_run_event : String → String → String → ℕ → List RunEvent → ℕ × List RunEvent
unfolding max_seq
add_run_event run_id kind message now events =
    let seq = suc (max_seq run_id events) in
    (
      seq,
      events
          ++ record { run_id = run_id; seq = seq; ts = now; kind = kind; message = message } ∷ [],
    )

unfoldable pub place_event : RunEvent → List RunEvent → List RunEvent
place_event e [] = e ∷ []
place_event e (d ∷ events) = if leb e.seq d.seq then e ∷ d ∷ events else d ∷ place_event e events

-- `ORDER BY seq`
unfoldable pub by_seq : List RunEvent → List RunEvent
unfolding place_event
by_seq [] = []
by_seq (e ∷ events) = place_event e (by_seq events)

-- `run_events`
unfoldable pub run_events : String → ℕ → List RunEvent → List RunEvent
unfolding by_seq
run_events run_id after events = by_seq (keep (λ e. e.run_id == run_id && ltb after e.seq) events)

-- The ids of the runs that are not terminal.
unfoldable pub lost_ids : List Run → List String
unfolding is_terminal
lost_ids [] = []
lost_ids (r ∷ runs) =
    let rest = lost_ids runs in if not (is_terminal r.status) then r.id ∷ rest else rest

-- `UPDATE runs SET status=?,finished_at=?,error=? WHERE id=?`
abbrev pub lose : ℕ → Run → Run
lose now r = record r {
  status = lost;
  finished_at = some now;
  error = some "Run could not be reconciled after server restart";
}

unfoldable pub mark_lost : ℕ → List String → List Run → List Run
unfolding update_where
mark_lost now [] runs = runs
mark_lost now (id ∷ ids) runs = mark_lost now ids (update_where (λ r. r.id == id) (lose now) runs)

unfoldable pub report_lost : ℕ → List String → List RunEvent → List RunEvent
unfolding add_run_event
report_lost now [] events = events
report_lost now (id ∷ ids) events =
    report_lost now ids
      (add_run_event id "status" "Run marked lost during startup reconciliation" now events).1

unfoldable pub reconcile_non_terminal_runs : ℕ → Store → List String × Store
unfolding lost_ids mark_lost report_lost
reconcile_non_terminal_runs now s =
    let ids = lost_ids s.runs in
    (ids, record { runs = mark_lost now ids s.runs; run_events = report_lost now ids s.run_events })
