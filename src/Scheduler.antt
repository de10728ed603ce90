-- ===== src/Scheduler.antt =====
-- internal/arcade/scheduler.go: timed tasks, their dispatch and their runs.
pub mod Clock
pub mod Tasks
pub mod Runs
pub mod Kept
pub mod Count
pub mod Turns
pub mod Slots
pub mod History
pub mod Format
pub mod Once
pub mod Load
mod Tests
