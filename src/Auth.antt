-- ===== src/Auth.antt =====
-- internal/platform/auth: the login of the server, its sessions and API tokens, and the gate before
-- its API.
pub mod Types
pub mod Database
pub mod Limiter
pub mod Password
pub mod Login
pub mod Service
pub mod Throttle
pub mod PasswordLaws
pub mod Tables
pub mod LoginSteps
pub mod Logins
pub mod Backing
pub mod Presented
pub mod Revocation
pub mod ApiTokens
pub mod Cleaning
pub mod Gate
pub mod Gatekeeping
pub mod Startup
pub mod Restarts
mod Samples
mod Tests
mod TokenTests
