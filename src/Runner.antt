-- ===== src/Runner.antt =====
-- runner: the process on a developer's machine that executes attempts.
pub mod Offline
pub mod Reconnect
pub mod Outbox
