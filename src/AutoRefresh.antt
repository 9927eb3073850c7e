-- ===== src/AutoRefresh.antt =====
-- modules/mail/backend/autorefresh.go: the worker that checks the Session of iCloud and keeps the
-- Apple Account alive.
pub mod Types
pub mod Apple
pub mod Service
pub mod Retries
pub mod Runs
pub mod Wakes
mod Tests
