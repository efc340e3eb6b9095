-- ===== src/Workflow.antt =====
-- server/modules/workflows: the engine's decisions, and the store of managed loops.
pub mod Join
pub mod StopPolicy
pub mod ManagedLoop
pub mod Validation
