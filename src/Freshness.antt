-- ===== src/Freshness.antt =====
-- mem0-server/freshness.py: the age of a record lowers its score on the durable read path.
pub mod Decay
pub mod Order
mod Tests
