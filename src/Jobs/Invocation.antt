-- ===== src/Jobs/Invocation.antt =====
-- scripts/wsl/jobs.py: `cmd_run`, one invocation of the queue. What other invocations do to the table
-- while the child runs, the child and the receipt file are arguments, and so are the clock's readings.
use Prim.Native.String.{◌++◌}
use agentic_memory_stack_for.Prelude.{
  ℕ, String, Bool, false, not, Option, none, some, List, [], ◌∷◌, eqb, if◌then◌else◌,
}
use agentic_memory_stack_for.Jobs.Queue.{
  Row, Table, Process, done, failed, Claim, reap, claim, Owner, finish,
}
use agentic_memory_stack_for.Jobs.Receipt.{Line, Observed, nothing, seen, crashed, observe_receipt}

-- A return code, or the signal that ended the child.
pub data Code : Type 0 where
  code : ℕ → Code
  signal : ℕ → Code

-- The child could not be started, or it ended.
pub data Child : Type 0 where
  exec_error : String → Child
  exited : Code → Child

pub data Exit : Type 0 where
  exits : Code → Exit
  raises : Exit

pub record Invocation : Type 0 where
  pub process : Process
  pub is_brain : Bool
  pub name : String
  pub stale_after : ℕ
  pub new_key : String
  pub reap_time : ℕ
  pub claim_time : ℕ
  pub finish_time : ℕ
  -- the other invocations, before and after this one reads its `claimed_at`
  pub before_read : Table → Table
  pub while_running : Table → Table
  pub child : String → Child
  pub receipt : String → Option (List Line)
  pub instant : String → Option ℕ

unfoldable pub is_zero : Code → Bool
is_zero (code n) = eqb n 0
is_zero (signal n) = false

-- `SELECT claimed_at FROM jobs WHERE id=?`
unfoldable pub claimed_at_of : ℕ → List Row → Option ℕ
claimed_at_of rid [] = none
claimed_at_of rid (r ∷ rs) =
    let rest = claimed_at_of rid rs in if eqb r.id rid then r.claimed_at else rest

module _ (i : Invocation) where
  unfoldable pub complete : Owner → Code → Observed → Table → Exit × Table
  complete o rc crashed t = (raises, t)
  complete o rc nothing t = (
    exits (if is_zero rc then code 3 else rc),
    finish o failed i.finish_time "failed:receipt-missing" t,
  )
  complete o rc (seen outcome) t =
      (exits rc, finish o (if is_zero rc then done else failed) i.finish_time outcome t)

  unfoldable pub after_child : Owner → String → Child → Table → Exit × Table
  after_child o key (exec_error why) t =
      (exits (code 1), finish o failed i.finish_time ("failed:exec-error:" ++ why) t)
  after_child o key (exited rc) t =
      complete o rc (observe_receipt i.instant key o.claimed_at (i.receipt key)) t

  -- `float(None)` raises TypeError.
  unfoldable pub run_claim : ℕ → String → Option ℕ → Table → Exit × Table
  run_claim rid key none t = (raises, t)
  run_claim rid key (some at) t =
      after_child (record { host = i.process.host; pid = i.process.pid; claimed_at = at; id = rid })
        key (i.child key) (i.while_running t)

  unfoldable pub on_claim : Option Claim × Table → Exit × Table
  on_claim (none, t) = (exits (code 0), t)
  on_claim (some (rid, key), t) =
      run_claim rid key (claimed_at_of rid (i.before_read t).rows) (i.before_read t)

  unfoldable pub cmd_run : Table → Exit × Table
  cmd_run t =
      if not i.is_brain
      then (exits (code 0), t)
      else on_claim (
          claim i.process i.claim_time i.stale_after i.name i.new_key
            (reap i.process i.reap_time i.name t))
