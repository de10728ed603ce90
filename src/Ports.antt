-- ===== src/Ports.antt =====
-- The ledger of host ports in internal/arcade/manager.go.
pub mod Geometry
pub mod Ledger
pub mod Bindings
pub mod Claims
pub mod Release
pub mod Suggest
mod Tests
