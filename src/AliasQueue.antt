-- ===== src/AliasQueue.antt =====
-- modules/mail/backend/alias_queue.go: the batch queue that creates hidden addresses one by one.
pub mod Types
pub mod Api
pub mod Worker
pub mod Machine
pub mod Counters
pub mod Invariant
pub mod Requests
pub mod Progress
pub mod Stale
mod Tests
