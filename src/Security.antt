-- ===== src/Security.antt =====
-- Logins and sessions (apps/api/sysadmin_api/security.py).
pub mod Limiter
pub mod Sessions
pub mod Login
pub mod Attempted
pub mod Revoked
pub mod LoggedIn
