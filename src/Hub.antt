-- ===== src/Hub.antt =====
-- internal/arcade/hub.go: the console fanout, one room for each server.
pub mod Conn
pub mod Rooms
mod Heap
pub mod Valid
pub mod History
pub mod Replay
pub mod Tombstone
pub mod Delivery
mod Tests
