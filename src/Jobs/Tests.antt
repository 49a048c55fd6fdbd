-- ===== src/Jobs/Tests.antt =====
-- The queue's theorems at work on a claim, its reaping and its end.
use agentic_memory_stack_for.Prelude.{
  if◌then◌else◌, ◌≤◌, ◌≡◌, ◌⊎◌, inl, refl, true, false, none, some, [], ◌∷◌, ◌==◌, map, filter, any,
  eqb,
}
use agentic_memory_stack_for.Jobs.Queue.{
  done, Row, Table, Process, is_queued, is_running, is_active, is_number, is_text, requeue_all,
  reap, oldest_queued, claim, claim_new, claim_write, new_row, Owner, owns, finish_row, finish,
}
use agentic_memory_stack_for.Jobs.Steps.{is_done, Step, claimed, finished, Run, stop, step, empty}
use agentic_memory_stack_for.Jobs.Active.{count_active, run-count_active}
use agentic_memory_stack_for.Jobs.Kept.{Has, Change, Step-Change}
use agentic_memory_stack_for.Jobs.Reap.{release_if_stale, reap-map}
use agentic_memory_stack_for.Jobs.Receipt.{
  object, observe_receipt, search, check_line, prefer, is_recent,
}
use agentic_memory_stack_for.Jobs.Invocation.{
  code, exited, exits, Invocation, is_zero, claimed_at_of, complete, after_child, run_claim,
  on_claim, cmd_run,
}
use agentic_memory_stack_for.Jobs.Complete.{IsComplete, claim_of, cmd_run-zero}

abbrev process : Process
process = record { host = "box"; pid = 7; boot_id = some "b"; pid_alive = λ pid. eqb pid 7 }

abbrev row : Row
row = new_row process 5 100 "nightly" "k" 1

-- The table after the first claim.
abbrev table : Table
table = (claim_write process 5 100 "nightly" "k" none empty).1

claim-Step : Step empty table
claim-Step = claimed empty process 5 100 "nightly" "k" none

claim_run : Run empty table
claim_run = step empty table table claim-Step (stop table)

there : Has row table.rows
unfolding claim_write claim_new any
there = inl refl

abbrev owner : Owner
owner = record { host = "box"; pid = 7; claimed_at = 5; id = 1 }

abbrev ended_table : Table
ended_table = finish owner done 9 "ok" table

finish-Step : Step table ended_table
finish-Step = finished table owner done 9 "ok" is_done

run-count_active_example : count_active "nightly" ended_table.rows ≤ 1
run-count_active_example = run-count_active "nightly" ended_table (
    step empty table ended_table claim-Step
      (step table ended_table ended_table finish-Step (stop ended_table)))

is_claimed : is_running row.state ≡ true
unfolding is_running new_row
is_claimed = refl

Step-Change_example : Has row ended_table.rows ⊎ ((r : Row) × Change row r × Has r ended_table.rows)
Step-Change_example = Step-Change table ended_table row is_claimed there finish-Step

abbrev ended_row : Row
ended_row = finish_row owner done 9 "ok" row

ended_there : Has ended_row ended_table.rows
unfolding claim_write claim_new any finish
ended_there = inl refl

ended_inactive : is_active ended_row ≡ false
unfolding is_active is_queued is_running finish_row owns is_text is_number new_row
ended_inactive = refl

reap-map_example :
    (reap process 1000 "nightly" table).rows
    ≡ map (release_if_stale process 1000 "nightly") table.rows
reap-map_example = reap-map process 1000 "nightly" table claim_run

abbrev invocation : Invocation
invocation = record {
  process = process;
  is_brain = true;
  name = "nightly";
  stale_after = 100;
  new_key = "k";
  reap_time = 4;
  claim_time = 5;
  finish_time = 9;
  before_read = λ t. t;
  while_running = λ t. t;
  child = λ key. exited (code 0);
  receipt = λ key. some (object (some key) (some "ok") "t8" ∷ []);
  instant = λ s. if s == "t8" then some 8 else none;
}

succeeded : (cmd_run invocation empty).0 ≡ exits (code 0)
unfolding cmd_run on_claim run_claim after_child complete is_zero claimed_at_of observe_receipt
    search check_line prefer is_recent is_text claim oldest_queued claim_write claim_new new_row any
    reap requeue_all filter
succeeded = refl

cmd_run-zero_example :
    (invocation.is_brain ≡ false)
    ⊎ ((claim_of invocation empty).0 ≡ none)
    ⊎ IsComplete invocation empty
cmd_run-zero_example = cmd_run-zero invocation empty succeeded
