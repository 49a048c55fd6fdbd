-- ===== src/Mojibake.antt =====
-- The mojibake tripwire of mem0-server/mojibake_check.py and the repair of scripts/wsl/cp437-repair.py.
pub mod Codec
pub mod Repair
pub mod RoundTrip
pub mod Detection
pub mod Scan
pub mod Counts
pub mod Phase
pub mod Receipts
pub mod Rewrite
pub mod Repaired
mod Tests
