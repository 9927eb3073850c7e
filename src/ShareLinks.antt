-- ===== src/ShareLinks.antt =====
-- modules/mail/backend/share_links.go on its JSON file and on PostgreSQL: the links that show an alias's mail to a
-- visitor, and the sessions opened with them.
pub mod Types
pub mod Database
pub mod Views
pub mod Keys
pub mod Integrity
pub mod Steps
pub mod Refinement
pub mod Operations
pub mod Isolation
pub mod Order
pub mod Import
pub mod Store
pub mod Access
pub mod Search
pub mod Resolving
pub mod Sessions
pub mod Creating
pub mod Revoking
pub mod Clearing
mod Tests
mod TableTests
