-- ===== src/Repository.antt =====
-- events/repository.py: the repository over the event store.
pub mod Pages
pub mod Whole
mod Tests
