-- ===== src/Carryover.antt =====
-- mem0-server/payload_carryover.py: what a PUT keeps of a record.
pub mod Keys
pub mod Kept
mod Tests
