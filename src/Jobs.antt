-- ===== src/Jobs.antt =====
-- scripts/wsl/jobs.py: the job queue, a table of rows that every invocation claims from.
pub mod Queue
pub mod Steps
pub mod Active
pub mod Kept
pub mod Distinct
pub mod Reap
pub mod Receipt
pub mod Invocation
pub mod Complete
pub mod Observe
pub mod Heartbeat
mod Tests
