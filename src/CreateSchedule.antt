-- ===== src/CreateSchedule.antt =====
-- modules/mail/backend/create_schedule.go: the scheduler that creates a batch of addresses every
-- so often, with its batch goroutine.
pub mod Types
pub mod Service
pub mod Batch
pub mod Bounds
pub mod Due
pub mod Runs
pub mod Interruptions
mod Tests
