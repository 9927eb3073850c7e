-- ===== src/AliasApps.antt =====
-- modules/mail/backend/alias_applications.go: which aliases have an account of an application, as
-- the messages that they receive show.
pub mod Types
pub mod Evidence
pub mod Store
pub mod Progress
pub mod Rows
pub mod Settled
pub mod Messages
pub mod Valid
mod Tests
