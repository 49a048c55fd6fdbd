-- ===== src/WritePath.antt =====
-- mem0-server/write_path.py: the health of the write path, learned from real writes.
pub mod Tracker
pub mod History
pub mod Middleware
pub mod Served
mod Tests
