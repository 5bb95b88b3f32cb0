-- ===== src/State.antt =====
-- src/state/store.ts: durable receipts, execution claims, reconciliation and goals.
pub mod Types
pub mod Steps
pub mod Checks
pub mod Prune
pub mod Sequence
pub mod Freshness
pub mod Claiming
pub mod Claim
pub mod Dispatch
pub mod Invariant
pub mod Disk
pub mod Goals
pub mod Reconcile
pub mod Recoverable
pub mod History
pub mod Answers
pub mod Tests
