-- ===== src/Auth.antt =====
-- Who may use the service: passwords, the tokens of a session, and the roles.
pub mod Crypto
pub mod Token
pub mod Authentic
pub mod Issued
pub mod Password
pub mod Access
pub mod Granted
pub mod Enrolled
mod Tests
