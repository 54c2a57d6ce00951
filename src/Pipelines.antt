-- ===== src/Pipelines.antt =====
-- The pipeline document of one project and its history in python/sdpstudio_server/storage.py: `_snapshot`,
-- `create_history_checkpoint`, `save_pipeline`, `list_history` and `restore_history`. A file holds what
-- was written to it. The files of the history stand in the order of their names, the newest first; a name
-- is a stamp and an id. Times are in microseconds, and the settings of the environment are read. An id
-- has no pattern characters. No other save comes between the two steps of a restore.
pub mod Revisions
pub mod History
pub mod Restore
use Prim.Native.String.{◌++◌}
use Prim.Native.Char.{code}
use sdp_studio.Prelude.{
  ℕ, zero, suc, ◌+◌, ◌-◌, String, Bool, true, false, List, [], ◌∷◌, map, Option, none, some, not,
  any, ◌&&◌, ◌||◌, leb, ltb, eqb, ◌==◌, if◌then◌else◌,
}
use sdp_studio.Prelude.Sort.{le_text}
use sdp_studio.Models.{
  PipelineDocument, Validated, valid, duplicate_node_ids, duplicate_edge_ids, ensure_unique_ids,
}

-- A file of the history: `st_mtime`, the stamp of its name, and its contents.
pub record HistoryFile : Type 0 where
  pub id : String
  pub stamp : ℕ
  pub modified : ℕ
  pub created_at : ℕ
  pub reason : String
  pub document : PipelineDocument

pub record Project : Type 0 where
  pub document : PipelineDocument
  pub history : List HistoryFile
  pub updated_at : ℕ

-- `SDPSTUDIO_HISTORY_MAX_COUNT`, `..._MAX_AGE_DAYS` and `..._DEBOUNCE_SECONDS`
pub record Settings : Type 0 where
  pub max_count : ℕ
  pub max_age : ℕ
  pub debounce : ℕ

-- What the clock shows at the steps of one operation, and the next `new_ulid`.
pub record Moment : Type 0 where
  pub now : ℕ
  pub stamp : ℕ
  pub created_at : ℕ
  pub modified : ℕ
  pub pruned : ℕ
  pub updated_at : ℕ
  pub new_id : String

is_newer : HistoryFile → HistoryFile → Bool
is_newer a b = ltb b.stamp a.stamp || eqb b.stamp a.stamp && le_text b.id a.id

-- A new file, among the others.
unfoldable pub place : HistoryFile → List HistoryFile → List HistoryFile
unfolding is_newer
place s [] = s ∷ []
place s (f ∷ files) = let rest = place s files in if is_newer s f then s ∷ f ∷ files else f ∷ rest

-- The loop that removes files, with the number of those that may stay.
unfoldable pub prune : ℕ → ℕ → ℕ → List HistoryFile → List HistoryFile
prune room max_age now [] = []
prune zero max_age now (f ∷ files) = []
prune (suc room) max_age now (f ∷ files) =
    let rest = prune room max_age now files in
    if ltb (f.modified + max_age) now then rest else f ∷ rest

abbrev pub at_least_one : ℕ → ℕ
at_least_one zero = 1
at_least_one (suc n) = suc n

-- `_snapshot`
unfoldable pub add_snapshot :
    Settings → Moment → PipelineDocument → String → List HistoryFile → List HistoryFile
unfolding place prune
add_snapshot settings at document reason files =
    let file : HistoryFile = record {
      id = at.new_id;
      stamp = at.stamp;
      modified = at.modified;
      created_at = at.created_at;
      reason = reason;
      document = document;
    } in
    prune (at_least_one settings.max_count) settings.max_age at.pruned (place file files)

-- `len(name)` counts letters.
letters : String → ℕ
letters String.[] = 0
letters (String.◌∷◌ c name) = suc (letters name)

has_slash : String → Bool
has_slash String.[] = false
has_slash (String.◌∷◌ c name) = eqb (code c) 47 || eqb (code c) 92 || has_slash name

unfoldable pub is_checkpoint_name : String → Bool
unfolding letters has_slash
is_checkpoint_name name = not (name == "") && leb (letters name) 120 && not (has_slash name)

-- What `_snapshot` and `list_history` tell of a file.
pub record HistoryItem : Type 0 where
  pub id : String
  pub created_at : ℕ
  pub reason : String
  pub revision : ℕ

-- What an operation returns, or the exception that it raises.
pub data Outcome : Type 0 where
  returned : PipelineDocument → Outcome
  revision_conflict : ℕ → Outcome
  checkpoint : HistoryItem → Outcome
  invalid_name missing_snapshot : String → Outcome
  invalid_document : Validated → Outcome

unfoldable pub create_history_checkpoint : Settings → Moment → String → Project → Outcome × Project
unfolding is_checkpoint_name add_snapshot
create_history_checkpoint settings at name p =
    if is_checkpoint_name name
    then (
      checkpoint (record {
        id = at.new_id;
        created_at = at.created_at;
        reason = "checkpoint: " ++ name;
        revision = p.document.revision;
      }),
      record p { history = add_snapshot settings at p.document ("checkpoint: " ++ name) p.history },
    )
    else (invalid_name name, p)

-- The time of the file that was modified last.
unfoldable pub latest : List HistoryFile → Option ℕ
latest [] = none
latest (f ∷ files) = elim (latest files) [
  | none ↦ some f.modified
  | some m ↦ some (if leb m f.modified then f.modified else m)
]

is_settled : ℕ → ℕ → Option ℕ → Bool
is_settled debounce now none = true
is_settled debounce now (some m) = leb (m + debounce) now

-- `save_pipeline`; the lock makes it one step.
unfoldable pub save_pipeline : Settings → Moment → PipelineDocument → Project → Outcome × Project
unfolding latest is_settled add_snapshot
save_pipeline settings at d p =
    if not (eqb d.revision p.document.revision)
    then (revision_conflict p.document.revision, p)
    else let saved = record d { revision = suc p.document.revision } in
      (
        returned saved,
        record {
          document = saved;
          history =
              if is_settled settings.debounce at.now (latest p.history)
              then add_snapshot settings at p.document "before visual edit" p.history
              else p.history;
          updated_at = at.updated_at;
        },
      )

unfoldable pub list_history : Project → List HistoryItem
list_history p =
    map
      (λ f. record {
        id = f.id;
        created_at = f.created_at;
        reason = f.reason;
        revision = f.document.revision;
      })
      p.history

unfoldable pub find_snapshot : String → List HistoryFile → Option HistoryFile
find_snapshot id [] = none
find_snapshot id (f ∷ files) = if f.id == id then some f else find_snapshot id files

-- What `load_pipeline` returns after a save.
abbrev loaded : Project → Outcome × Project
loaded p = (returned p.document, p)

restore_document : Settings → Moment → Validated → Project → Outcome × Project
unfolding save_pipeline
restore_document settings at (valid d) p =
    loaded (save_pipeline settings at (record d { revision = p.document.revision }) p).1
restore_document settings at duplicate_node_ids p = (invalid_document duplicate_node_ids, p)
restore_document settings at duplicate_edge_ids p = (invalid_document duplicate_edge_ids, p)

restore_found : Settings → Moment → String → Option HistoryFile → Project → Outcome × Project
unfolding restore_document ensure_unique_ids
restore_found settings at id none p = (missing_snapshot id, p)
restore_found settings at id (some f) p =
    restore_document settings at (ensure_unique_ids f.document) p

unfoldable pub restore_history : Settings → Moment → String → Project → Outcome × Project
unfolding find_snapshot restore_found
restore_history settings at id p = restore_found settings at id (find_snapshot id p.history) p

-- Operations of the server on the project, each by whoever. A git command such as `checkout` or `pull`
-- leaves some document in the file, and the checkpoint before it is an operation of its own.
pub data Operation : Type 0 where
  save : Moment → PipelineDocument → Operation
  keep : Moment → String → Operation
  restore : Moment → String → Operation
  git : PipelineDocument → Operation

unfoldable pub perform : Settings → Operation → Project → Project
unfolding save_pipeline create_history_checkpoint restore_history
perform settings (save at d) p = (save_pipeline settings at d p).1
perform settings (keep at name) p = (create_history_checkpoint settings at name p).1
perform settings (restore at id) p = (restore_history settings at id p).1
perform settings (git d) p = record p { document = d }

unfoldable pub perform_all : Settings → List Operation → Project → Project
unfolding perform
perform_all settings [] p = p
perform_all settings (op ∷ ops) p = perform_all settings ops (perform settings op p)
