-- ===== src/PairCache.antt =====
-- mem0-server/pair_cache.py: the verdicts of judged pairs, with a time to live.
pub mod Store
pub mod Fresh
pub mod Keys
mod Tests
