-- ===== src/Store.antt =====
-- store/sqlite.py: the append-only event store.
pub mod Rows
pub mod Arguments
pub mod Json
pub mod History
pub mod Session
pub mod Append
pub mod Numbered
pub mod Intact
pub mod Read
pub mod Projection
pub mod Schema
pub mod Steps
pub mod Verify
mod Tests
