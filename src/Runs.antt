-- ===== src/Runs.antt =====
-- The runs of a project: their life, the table in which they are claimed, and their events.
pub mod Status
pub mod Life
pub mod Store
pub mod Claims
pub mod Recovery
pub mod Rows
pub mod Journal
pub mod Operations
pub mod Deletion
pub mod Edits
pub mod Lost
pub mod Moves
pub mod Stages
pub mod Lease
pub mod Oldest
pub mod Exclusive
pub mod Worker
pub mod Drain
pub mod Ends
