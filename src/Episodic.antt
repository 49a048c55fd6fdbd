-- ===== src/Episodic.antt =====
-- The episodic ledger of mem0-server/episodic.py, with the verdicts on turns of mem0-server/hook_contract.py.
pub mod Words
pub mod Turn
pub mod Summary
pub mod Newest
pub mod Store
pub mod Steps
pub mod Open
pub mod Rows
pub mod Statements
pub mod Ledger
pub mod Finalize
mod Tests
