-- ===== src/Capabilities.antt =====
-- The capability manifest of mem0-server/capabilities.py.
pub mod Checks
pub mod States
pub mod Signals
pub mod Select
pub mod Manifest
pub mod Verdict
pub mod Probe
mod Tests
