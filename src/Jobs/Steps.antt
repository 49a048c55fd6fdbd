-- ===== src/Jobs/Steps.antt =====
-- The statements that any number of invocations run on one table, in any order. A row that a
-- statement was given may have been read at any time before.
use agentic_memory_stack_for.Prelude.{ℕ, String, ◌≡◌, true, Option, []}
use agentic_memory_stack_for.Jobs.Queue.{
  State, done, failed, Row, Table, Process, is_stale, requeue, claim_write, Owner, finish,
}

-- The states that `_finish` writes.
pub data Ended : State → Type 0 where
  is_done : Ended done
  is_failed : Ended failed

pub data Step : Table → Table → Type 0 where
  requeued :
      (t : Table) (p : Process) (now : ℕ) (name : String) (read : Row)
      → is_stale p now name read ≡ true
      → Step t (requeue read t)
  claimed :
      (t : Table) (p : Process) (now stale_after : ℕ) (name key : String) (read : Option Row)
      → Step t (claim_write p now stale_after name key read t).1
  finished :
      (t : Table) (o : Owner) (state : State) (now : ℕ) (outcome : String)
      → Ended state
      → Step t (finish o state now outcome t)

pub data Run : Table → Table → Type 0 where
  stop : (t : Table) → Run t t
  step : (t u v : Table) → Step t u → Run u v → Run t v

abbrev pub empty : Table
empty = record { rows = []; next_id = 1 }
