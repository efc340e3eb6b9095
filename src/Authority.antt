-- ===== src/Authority.antt =====
-- server/modules/execution-authority: sessions, single-use authorizations and who may do what.
pub mod Sessions
pub mod Authorizations
pub mod Connectors
pub mod Policy
pub mod Commands
pub mod Revocations
