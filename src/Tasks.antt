-- ===== src/Tasks.antt =====
-- src/server.ts: the tasks of autonomous goals, which let a runtime work on an issue in steps and move
-- the issue to completed.
pub mod Calls
pub mod Notices
pub mod Completion
pub mod Loop
pub mod Guards
pub mod Guarded
pub mod Completed
pub mod Endings
pub mod Rounds
mod Tests
