-- ===== src/Lib.antt =====
-- SDP Studio: a visual editor that compiles pipeline graphs to Spark Declarative Pipelines
-- (python/sdpstudio_core, python/sdpstudio_codegen, python/sdpstudio_server).
--
-- A pipeline document (nodes with an operator and a configuration, edges between ports) is saved in
-- revisions with a history, indexed, validated against the operator catalogue, ordered and traced.
-- It is lowered to an intermediate representation, for which a plan chooses a language at each output;
-- edits of the generated Python are read back into the document. Runs of a project are started by its
-- users or by the schedules, kept in tables and claimed by a worker. Each part of the program has a
-- module here, with the definitions in the module's own file and the proofs in its children:
--
-- - `Models`, `Models.Ids`, `Models.Problems`: python/sdpstudio_core/models.py, the document and the
--   validator of its ids. Canvas positions, problem texts and remediations are left out.
-- - `Json`: the values of a node's configuration. A number is the decimal that a document spells.
-- - `Operators`: python/sdpstudio_core/operators.py, the built-in operators, the catalogue and the
--   registry, with the operators of plugins as a parameter.
-- - `Graph`: python/sdpstudio_core/graph.py. `Graph.Index` is `GraphIndex.__init__`, `Graph.Order`
--   is `topological_order`, `Graph.Walk` is `ancestors`, `descendants` and `trace_to_sources`,
--   `Graph.Secrets` is `_secret_literal_problems` and `Graph.Validate` is `validate_graph`.
-- - `Ir`: python/sdpstudio_core/ir.py. `Ir.Freeze` is `_freeze` and `_thaw`, `Ir.Refs` is
--   `_collect_refs`, `Ir.Modes` and `Ir.Lower` are the loops of `lower_pipeline`, and `Ir.View` is
--   `graph_view`. The lowering validates the document and walks it in topological order. Source
--   locations, and the lowering of a view that carries its representation, are left out; of the name
--   of a sink the value is kept that `str` prints.
-- - `Planner`: `plan_pipeline` of python/sdpstudio_codegen/planner.py, on the view of the lowered
--   pipeline. The walk above an output takes at most two rounds for each edge.
-- - `Reconcile`: `reconcile_python` and `parse_ownership_markers` of
--   python/sdpstudio_codegen/reconcile.py, on the lines of the code and on the tree that Python's
--   parser returns (`Reconcile.Syntax`). `Reconcile.Decorators`, `Reconcile.Statements` and
--   `Reconcile.Edits` are its two inner loops and the chain of tests on an assignment,
--   `Reconcile.Copies` the copies of the nodes that they write to, and `Reconcile.Equality` the
--   comparison of documents. `Reconcile.Variables` has `_var` of
--   python/sdpstudio_codegen/python_backend.py. `reconcile_sql` is left out, and so is a
--   mapping that is a list of pairs. Of the characters beyond ASCII `_identifier` takes all for letters.
-- - `SafeExpression`: python/sdpstudio_codegen/safe_expression.py, the policy for custom dataframe
--   expressions, on the syntax tree that Python's parser returns. `SafeExpression.Grammar` is the
--   grammar that the policy is measured against.
-- - `Runs`: `RUN_TRANSITIONS` of python/sdpstudio_core/models.py (`Runs.Status`) and the tables of
--   runs and run events of python/sdpstudio_server/storage.py: `Runs.Store` (`create_run`,
--   `update_run`, `transition_run`, `get_run`), `Runs.Claims` (`claim_run`, `heartbeat_run`,
--   `release_run_claim`) and `Runs.Recovery` (`reconcile_non_terminal_runs`, `add_run_event`,
--   `run_events`). `Runs.Operations` puts the operations, with the deletion of a project, into
--   sequences: each is one transaction, but `transition_run` reads the table in one, at any time
--   before, and writes in another. `Runs.Worker` is `DurableRunWorker` of
--   python/sdpstudio_server/run_worker.py on these tables, with the executor as a parameter, which
--   returns, raises an `Exception` or is cancelled; the rounds of `drain_async` are counted.
-- - `Collaboration`: the event log of a project in python/sdpstudio_server/storage.py,
--   `append_collaboration_event`, `collaboration_events`, `save_collaboration_snapshot` and
--   `compact_collaboration_events`, for the rows of one project, and what its deletion leaves.
-- - `Auth`: `AuthService` of python/sdpstudio_server/auth.py. Argon2 and the signing of a session are
--   the parameter `Crypto`; the decoding of a session token and the `VerificationError` of Argon2, which
--   the source does not catch, are left out.
-- - `Scheduler`: python/sdpstudio_server/scheduler.py. `Scheduler.Clock` has the cron fields and the
--   calendar; `search` and `scan_minutes` take the 366 * 24 * 60 rounds of the source. `tick` and
--   `dispatch_finished` are the worker, with the claims of the store as a parameter. A moment is the
--   number of a minute; shifts of the clock of a zone, and names of no zone, are left out.
--   `Scheduler.Store` is the table of schedules in python/sdpstudio_server/storage.py, with
--   `claim_schedule`; that the deletion of a project removes its schedules is left out.
-- - `Pipelines`: `save_pipeline` of python/sdpstudio_server/storage.py, the history of a project's
--   document and its checkpoints, for one project; `prune` is the loop of `_snapshot` over the files. A
--   git command (python/sdpstudio_server/app.py) leaves some document in place of the last one.
-- - `Identifiers`: python/sdpstudio_core/ids.py, with the clock and the random bytes as arguments.
-- - `Documents`: `migrate_document` of python/sdpstudio_core/persistence.py. A negative version is left
--   out.
-- - `Prelude`: lists, dictionaries in insertion order, stable sorting by a text key, multisets.
-- - `Tests`: runs of the definitions, and the theorems at concrete inputs.
--
-- A Python dict is an association list in insertion order, a set a list to which only new members
-- are added, `sorted` a stable insertion sort by code points, and a `KeyError` the outcome
-- `key_error`. A `while` loop counts its rounds: the topological order takes one for each node, a
-- graph walk one for its start and one for each edge, the walk of `SafeExpression` one for each node
-- of the tree, and the theorems on them show that the count is never used up; `drain_async` takes
-- one more than there are queued runs. Keys are lowered as ASCII in the scan for secrets. Times of
-- the database and of the logins are numbers of microseconds, which are ordered as the texts are
-- that the program writes. Routes, the texts that the code generators print, runners and sign-on by
-- a provider are not modelled.
pub mod Prelude
pub mod Json
pub mod Models
pub mod Operators
pub mod Graph
pub mod Ir
pub mod Planner
pub mod Reconcile
pub mod SafeExpression
pub mod Runs
pub mod Collaboration
pub mod Auth
pub mod Scheduler
pub mod Pipelines
pub mod Identifiers
pub mod Documents
mod Tests
