-- ===== src/PairCache/Fresh.antt =====
-- What the cache answers after a write.
use agentic_memory_stack_for.Prelude.{
  ℕ, ◌+◌, ◌≤◌, String, ◌≡◌, refl, ◌∙◌, Bool, true, Option, none, some, ◌==◌, ltb, arith,
  if◌then◌else◌,
}
use agentic_memory_stack_for.PairCache.Store.{
  Row, Table, ttl, is_expired, live, get_with_ts, insert, kept, delete_expired, put,
}

-- A row that a write deletes is expired at every later read.
live-kept : (t now : ℕ) (o : Option Row) → t ≤ now → live now (kept t o) ≡ live now o
unfolding live kept is_expired
live-kept t now none h = refl
live-kept t now (some r) h = ground arith

live-insert :
    (now : ℕ) (key k : String) (r : Row) (t : Table)
    → live now (insert key r t k) ≡ (if key == k then live now (some r) else live now (t k))
unfolding insert
live-insert now key k r t = ground arith

-- After a verdict is written, a read that is no earlier finds it under its key until it expires,
-- and finds under every other key what it would have found before, although the write deletes
-- expired rows.
pub get_with_ts-put :
    (written now : ℕ) (key k question_type judge_mode : String) (verdict : Bool) (t : Table)
    → written ≤ now
    → get_with_ts true now k (put true written key (some verdict) question_type judge_mode t).1 ≡ (
        if key == k
        then (if ltb (written + ttl) now then none else some (verdict, written))
        else get_with_ts true now k t)
unfolding get_with_ts put delete_expired
get_with_ts-put written now key k question_type judge_mode verdict t h =
    live-kept written now _ h ∙ live-insert now key k _ t ∙ unfold live is_expired in refl
