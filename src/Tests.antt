-- ===== src/Tests.antt =====
-- Runs of the definitions on small inputs, and the theorems at inputs that meet their hypotheses.
mod Graph
mod Planner
mod Reconcile
mod SafeExpression
mod Runs
mod Collaboration
mod Auth
mod Scheduler
mod Pipelines
mod Worker
mod Identifiers
mod Documents
