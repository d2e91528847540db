-- ===== src/Task.antt =====
-- src/domain: the task record's journal, its reducer and the start of a task.
pub mod Journal
pub mod Reducer
pub mod Request
pub mod Idempotency
pub mod Snapshot
