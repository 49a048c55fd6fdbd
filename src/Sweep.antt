-- ===== src/Sweep.antt =====
-- The weekly contradiction sweep of scripts/wsl/contradiction-sweep.py.
pub mod Rotation
pub mod Rules
pub mod FullPass
pub mod Candidates
mod Tests
