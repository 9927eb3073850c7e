-- ===== src/ActivityLog.antt =====
-- internal/platform/activitylog/store.go: the log of what a module did, for its users to read.
pub mod Types
pub mod Entries
pub mod Pages
pub mod Store
pub mod Retention
pub mod Paging
pub mod Agreement
pub mod Recording
pub mod Import
mod Tests
