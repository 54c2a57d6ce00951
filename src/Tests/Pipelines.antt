-- ===== src/Tests/Pipelines.antt =====
-- Two clients that edit one project, and a checkpoint between their saves.
use sdp_studio.Prelude.{
  all, ℕ, suc, ◌<◌, String, List, [], ◌∷◌, Memᴰ, ◌≡◌, refl, true, arith, subst, sym,
}
use sdp_studio.Models.{PipelineDocument, valid, ensure_unique_ids, to_set}
use sdp_studio.Pipelines.{
  Project, Settings, Moment, returned, revision_conflict, invalid_name, missing_snapshot,
  save_pipeline, create_history_checkpoint, list_history, restore_history, is_checkpoint_name,
  Operation, save, keep, perform_all, git,
}
use sdp_studio.Pipelines.Revisions.{is_ahead, save_pipeline-first_wins}
use sdp_studio.Pipelines.History.{IsHarmless}
use sdp_studio.Pipelines.Restore.{kept_file, restore_history-checkpoint}

abbrev blank : PipelineDocument
blank = record {
  schema_version = 1;
  pipeline_id = "p";
  name = "main";
  revision = 0;
  nodes = [];
  edges = [];
}

abbrev renamed : PipelineDocument
renamed = record blank { name = "renamed" }

abbrev defaults : Settings
defaults = record { max_count = 200; max_age = 31536000000000; debounce = 2000000 }

abbrev moment : ℕ → String → Moment
moment t id = record {
  now = t;
  stamp = t;
  created_at = t;
  modified = t;
  pruned = t;
  updated_at = t;
  new_id = id;
}

abbrev start : Project
start = record { document = blank; history = []; updated_at = 0 }

abbrev edits : List Operation
edits = save (moment 10 "b") renamed ∷ []

-- The second save comes within two seconds of the first and leaves no file.
rapid_edits :
    list_history (
      perform_all defaults
        (save (moment 5 "a") renamed ∷ save (moment 10 "b") (record blank { revision = 1 }) ∷ [])
        start)
    ≡ record { id = "a"; created_at = 5; reason = "before visual edit"; revision = 0 } ∷ []
unfolding perform_all list_history
rapid_edits = refl

bad_name :
    create_history_checkpoint defaults (moment 5 "a") "a/b" start ≡ (invalid_name "a/b", start)
unfolding create_history_checkpoint
bad_name = refl

unknown_snapshot : restore_history defaults (moment 5 "a") "z" start ≡ (missing_snapshot "z", start)
unfolding restore_history
unknown_snapshot = refl

ahead : all (is_ahead 0) (keep (moment 20 "c") "v1" ∷ []) ≡ true
unfolding is_ahead
ahead = refl

-- After a git checkout of an older revision a save that did not see the last one is accepted.
stale_save :
    (save_pipeline defaults
      (moment 40 "e")
      blank
      (perform_all defaults (save (moment 10 "b") renamed ∷ git blank ∷ []) start)).1.document
    ≡ record blank { revision = 1 }
unfolding perform_all save_pipeline
stale_save = refl

save_pipeline-first_wins_example :
    let q =
      perform_all defaults
        (keep (moment 20 "c") "v1" ∷ [])
        (save_pipeline defaults (moment 10 "b") renamed start).1 in
    (0 < q.document.revision)
    × (save_pipeline defaults (moment 30 "d") blank q ≡ (revision_conflict q.document.revision, q))
save_pipeline-first_wins_example =
    save_pipeline-first_wins defaults (moment 10 "b") (moment 30 "d") renamed blank
      (keep (moment 20 "c") "v1" ∷ []) start refl refl ahead

follows :
    (op : Operation) → Memᴰ op edits → IsHarmless defaults (kept_file (moment 5 "a") "v1" blank) op
follows op (Memᴰ.head e) =
    subst (λ o. IsHarmless defaults (kept_file (moment 5 "a") "v1" blank) o) (sym e)
      (refl, omega arith)
follows op (Memᴰ.tail m) = elim m [ ]

checked : ensure_unique_ids blank ≡ valid blank
unfolding ensure_unique_ids to_set
checked = refl

fine : is_checkpoint_name "v1" ≡ true
unfolding is_checkpoint_name
fine = refl

restore_history-checkpoint_example :
    let q =
      perform_all defaults edits (create_history_checkpoint defaults (moment 5 "a") "v1" start).1 in
    let d = record blank { revision = suc q.document.revision } in
    ((restore_history defaults (moment 20 "c") "a" q).0 ≡ returned d)
    × ((restore_history defaults (moment 20 "c") "a" q).1.document ≡ d)
restore_history-checkpoint_example =
    restore_history-checkpoint defaults (moment 5 "a") (moment 20 "c") "v1" edits start fine checked
      (λ f m. elim m [ ]) (omega arith) follows (omega arith)
