-- ===== src/Lifecycle.antt =====
-- The life of a server: start, stop, kill, restart, crash and the restart of the panel, in
-- internal/arcade/manager.go and internal/arcade/lifecycle_intent.go.
pub mod State
pub mod Start
pub mod Exit
pub mod Calls
pub mod Quiet
pub mod Intents
pub mod Moves
pub mod Resume
pub mod Stale
pub mod Launched
pub mod Claims
mod Tests
