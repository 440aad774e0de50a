-- ===== src/Auth.antt =====
-- src/glip/native_auth.py: logins with a password, their lockout, and revocable sessions.
pub mod Data
pub mod Identity
pub mod Login
pub mod Sessions
pub mod SessionLaws
pub mod LoginLaws
mod Examples
pub mod Bounded
