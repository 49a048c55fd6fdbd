-- ===== src/Supersession.antt =====
-- mem0-server/supersession.py: the one door that hides a fact behind a newer one.
pub mod Ids
pub mod Rules
pub mod Matrix
pub mod Store
pub mod Transaction
pub mod Audit
pub mod Protect
pub mod Effect
pub mod Frame
pub mod Repeat
pub mod Undo
mod Tests
