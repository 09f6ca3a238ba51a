-- ===== src/History.antt =====
-- history/fold.py: the state of a case, folded from its stream.
pub mod Fields
pub mod Records
pub mod Case
mod Tests
