-- ===== src/Pipelines/Restore.antt =====
-- Restoring a checkpoint.
use Prim.Native.String.{◌++◌}
use sdp_studio.Prelude.{
  ℕ, zero, suc, ◌+◌, ◌≤◌, ◌<◌, String, ◌≡◌, refl, ap, true, List, Memᴰ, length, some, arith,
}
use sdp_studio.Models.{PipelineDocument, valid, ensure_unique_ids}
use sdp_studio.Pipelines.{
  HistoryFile, Project, Settings, Moment, returned, place, at_least_one, add_snapshot,
  create_history_checkpoint, restore_document, restore_found, restore_history, find_snapshot,
  Operation, perform_all, is_checkpoint_name,
}
use sdp_studio.Pipelines.Revisions.{save_pipeline-accepts}
use sdp_studio.Pipelines.History.{
  StandsWithin, prune-StandsWithin, place-first, perform_all-finds, IsHarmless,
}

-- The file that a checkpoint writes.
abbrev pub kept_file : Moment → String → PipelineDocument → HistoryFile
kept_file at name d = record {
  id = at.new_id;
  stamp = at.stamp;
  modified = at.modified;
  created_at = at.created_at;
  reason = "checkpoint: " ++ name;
  document = d;
}

at_least_one-pos : (n : ℕ) → 0 < at_least_one n
at_least_one-pos zero = omega arith
at_least_one-pos (suc n) = omega arith

checkpoint-StandsWithin :
    (settings : Settings) (at : Moment) (name : String) (p : Project)
    → is_checkpoint_name name ≡ true
    → ((f : HistoryFile) → Memᴰ f p.history → f.stamp < at.stamp)
    → at.pruned ≤ at.modified + settings.max_age
    → StandsWithin
        (kept_file at name p.document)
        0
        (create_history_checkpoint settings at name p).1.history
unfolding create_history_checkpoint add_snapshot
checkpoint-StandsWithin settings at name p fine newest young =
    let file = kept_file at name p.document in
    rw fine (
      prune-StandsWithin file 0 (at_least_one settings.max_count) settings.max_age at.pruned
        (place file p.history) (at_least_one-pos settings.max_count) young
        (place-first file p.history newest))

-- A checkpoint of a valid document, later than the files of the history, can be restored as long as
-- fewer operations than the history holds files have followed, with other ids and within the age:
-- whatever they were, the document is then the one of the checkpoint, with the next revision.
pub restore_history-checkpoint :
    (settings : Settings) (at last : Moment) (name : String) (ops : List Operation) (p : Project)
    → is_checkpoint_name name ≡ true
    → ensure_unique_ids p.document ≡ valid p.document
    → ((f : HistoryFile) → Memᴰ f p.history → f.stamp < at.stamp)
    → at.pruned ≤ at.modified + settings.max_age
    → ((op : Operation) → Memᴰ op ops → IsHarmless settings (kept_file at name p.document) op)
    → length ops < at_least_one settings.max_count
    → let q = perform_all settings ops (create_history_checkpoint settings at name p).1 in
      let d = record p.document { revision = suc q.document.revision } in
      ((restore_history settings last at.new_id q).0 ≡ returned d)
      × ((restore_history settings last at.new_id q).1.document ≡ d)
unfolding restore_history restore_found restore_document
restore_history-checkpoint settings at last name ops p fine checked newest young later room =
    let q = perform_all settings ops (create_history_checkpoint settings at name p).1 in
    let there : find_snapshot at.new_id q.history ≡ some (kept_file at name p.document) =
      perform_all-finds settings (kept_file at name p.document) ops 0 _ later (omega arith)
        (checkpoint-StandsWithin settings at name p fine newest young) in
    let same =
      (save_pipeline-accepts settings last (record p.document { revision = q.document.revision }) q
        refl).1 in
    rw there (rw checked (ap returned same, same))
