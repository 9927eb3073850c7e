-- ===== src/SystemUpdate.antt =====
-- internal/platform/systemupdate: the requests to the host for a check or an update of the server.
pub mod Service
pub mod Requests
mod Tests
