-- ===== src/Operation.antt =====
-- The operations on a deployment that was started: restart, stop and start.
pub mod Guards
pub mod Run
pub mod Steady
pub mod Outcome
pub mod Exclusion
pub mod Logs
pub mod LogsBounds
mod Tests
