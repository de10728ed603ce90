-- ===== src/Jobs.antt =====
-- Long operations and their records: internal/arcade/job_store.go, internal/arcade/operations.go and the
-- jobs of internal/arcade/import.go.
pub mod State
pub mod Store
pub mod Known
pub mod Steps
pub mod Once
pub mod Key
mod Tests
pub mod Valid
