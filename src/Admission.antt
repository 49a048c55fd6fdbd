-- ===== src/Admission.antt =====
-- mem0-server/admission_gate.py: which search results a request may see.
pub mod Policy
pub mod Apply
pub mod Isolation
pub mod Stamps
pub mod Cleared
pub mod Targets
pub mod Hidden
pub mod Counting
pub mod Today
mod Tests
