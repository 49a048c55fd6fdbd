-- ===== src/Fusion.antt =====
-- The fusion of dense, keyword and entity ranks of mem0-server/fusion.py.
pub mod Rank
pub mod Search
pub mod Ranked
pub mod Stamped
mod Tests
