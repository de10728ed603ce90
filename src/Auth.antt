-- ===== src/Auth.antt =====
-- internal/arcade/auth.go: accounts, sessions, the request gate and the login limiter.
pub mod State
pub mod Accounts
pub mod Sessions
pub mod Gate
pub mod Commit
pub mod Admins
pub mod Revoke
pub mod Bounds
pub mod Access
pub mod Login
pub mod Load
pub mod Limits
mod Tests
