-- ===== src/Restore.antt =====
-- Restoring a backup, and recovery at a start of the panel: `RestoreBackup` of internal/arcade/backup.go,
-- internal/arcade/restore_journal.go and `recoverInterruptedRestores` of internal/arcade/manager.go.
pub mod Disk
pub mod Swap
pub mod Recover
pub mod Safe
pub mod Undo
pub mod World
pub mod Over
pub mod Removal
pub mod Parts
pub mod Recovery
pub mod Install
pub mod Rollback
pub mod Outcome
pub mod Ends
pub mod Crash
pub mod Remains
pub mod Boots
mod Tests
