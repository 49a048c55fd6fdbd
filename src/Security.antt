-- ===== src/Security.antt =====
-- mem0-server/security_invariants.py: who may change a protected record, and which keys.
pub mod Labels
pub mod Patch
pub mod Replay
pub mod Recorded
pub mod Token
pub mod Once
pub mod Scanned
pub mod Valid
pub mod Gate
pub mod Ambiguity
mod Tests
