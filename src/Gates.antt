-- ===== src/Gates.antt =====
-- server/modules/gates: approved gate manifests, and the evaluations of gates by local commands and
-- by GitHub checks.
pub mod Approvals
pub mod Records
pub mod Evaluations
pub mod Coordinator
mod Scenarios
