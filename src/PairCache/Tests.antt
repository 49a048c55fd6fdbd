-- ===== src/PairCache/Tests.antt =====
-- A verdict that is written and read again.
use agentic_memory_stack_for.Prelude.{◌+◌, ◌≡◌, arith, true, none, some, ◌==◌, ltb, if◌then◌else◌}
use agentic_memory_stack_for.PairCache.Store.{Table, ttl, get_with_ts, put}
use agentic_memory_stack_for.PairCache.Fresh.{get_with_ts-put}

abbrev empty : Table
empty = λ k. none

get_with_ts-put_example :
    get_with_ts true 60 "k" (put true 50 "k" (some true) "contradiction" "codex" empty).1 ≡ (
      if "k" == "k"
      then (if ltb (50 + ttl) 60 then none else some (true, 50))
      else get_with_ts true 60 "k" empty)
get_with_ts-put_example =
    get_with_ts-put 50 60 "k" "k" "contradiction" "codex" true empty (omega arith)
