-- ===== src/Environment.antt =====
-- services/environment/: the check of a host, and the installation of what it lacks.
pub mod Commands
pub mod Runner
pub mod Release
pub mod Checks
pub mod Run
pub mod Execute
pub mod Stable
pub mod Outcome
pub mod Install
pub mod Whole
pub mod Safety
pub mod Success
pub mod Tests
pub mod Task
pub mod TaskOutcome
