-- ===== src/Coverage.antt =====
-- reports/coverage.py: coverage evidence from the information resource inventory.
pub mod Clock
pub mod Evidence
pub mod Collect
pub mod Projection
pub mod Groups
pub mod Runs
pub mod Derive
pub mod Filed
pub mod Window
pub mod Run
pub mod Promises
mod Tests
