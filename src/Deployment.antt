-- ===== src/Deployment.antt =====
-- The deployments: the commands they are made of, and the jobs that run them.
pub mod Docker
pub mod Sglang
pub mod Payload
pub mod Create
pub mod Http
pub mod World
pub mod Apply
pub mod Numbered
pub mod Health
pub mod Run
pub mod Steady
pub mod Outcome
pub mod Safety
pub mod Removal
pub mod Masked
pub mod Severity
pub mod Tests
