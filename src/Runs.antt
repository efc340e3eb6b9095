-- ===== src/Runs.antt =====
-- server/modules/runs: the life of runs and attempts, and the acceptance of runner events.
pub mod Lifecycle
pub mod Acceptance
