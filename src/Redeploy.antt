-- ===== src/Redeploy.antt =====
-- The redeployment of a deployment with another configuration.
pub mod Plan
pub mod Run
pub mod Outcome
pub mod Request
pub mod Task
pub mod TaskOutcome
pub mod Riskless
pub mod Risk
mod Tests
