-- ===== src/SshCheck.antt =====
-- services/ssh_connect_check.py: the job that tries to log in to a host.
pub mod Run
pub mod Outcome
mod Tests
