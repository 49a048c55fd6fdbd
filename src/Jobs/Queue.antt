-- ===== src/Jobs/Queue.antt =====
-- scripts/wsl/jobs.py: the rows of the `jobs` table and the statements that `reap`, `_claim` and
-- `_finish` run on it. A time counts microseconds. A statement is one transaction: BEGIN IMMEDIATE
-- makes each write a single step.
use agentic_memory_stack_for.Prelude.{
  ℕ, suc, ◌+◌, String, Bool, true, false, not, ◌&&◌, ◌||◌, Option, none, some, List, [], ◌∷◌, ◌++◌,
  ◌==◌, leb, eqb, if◌then◌else◌, filter, any, map,
}
use agentic_memory_stack_for.Prelude.Text.{is_empty, take}

pub data State : Type 0 where
  queued running done failed : State

pub record Row : Type 0 where
  pub id : ℕ
  pub name : String
  pub state : State
  pub idempotency_key : String
  pub owner_host : Option String
  pub owner_pid : Option ℕ
  pub owner_boot_id : Option String
  pub claimed_at : Option ℕ
  pub finished_at : Option ℕ
  pub outcome : Option String
  pub reap_count : ℕ
  pub stale_after : ℕ
  pub created_at : ℕ

-- The table and its AUTOINCREMENT counter.
pub record Table : Type 0 where
  pub rows : List Row
  pub next_id : ℕ

-- The process that runs a statement: `_host()`, `os.getpid()`, `_boot_id()` and `_pid_alive`.
pub record Process : Type 0 where
  pub host : String
  pub pid : ℕ
  pub boot_id : Option String
  pub pid_alive : ℕ → Bool

abbrev pub default_stale_after : ℕ
default_stale_after = 21600000000

unfoldable pub is_queued : State → Bool
is_queued queued = true
is_queued s = false

unfoldable pub is_running : State → Bool
is_running running = true
is_running s = false

-- `state IN ('queued', 'running')`
unfoldable pub is_active : Row → Bool
is_active r = is_queued r.state || is_running r.state

-- SQL's `IS`, also on NULL.
unfoldable pub is_number : Option ℕ → Option ℕ → Bool
is_number none none = true
is_number none (some b) = false
is_number (some a) none = false
is_number (some a) (some b) = eqb a b

unfoldable pub is_text : Option String → String → Bool
is_text none t = false
is_text (some s) t = s == t

abbrev pub or_zero : Option ℕ → ℕ
or_zero none = 0
or_zero (some n) = n

-- `bool(boot) and boot == _boot_id()`
unfoldable pub same_boot : Option String → Option String → Bool
same_boot none current = false
same_boot (some boot) current = not (is_empty boot) && is_text current boot

-- `pid and _pid_alive(int(pid))`
unfoldable pub owner_alive : Process → Option ℕ → Bool
owner_alive p none = false
owner_alive p (some pid) = not (eqb pid 0) && p.pid_alive pid

-- The claim is younger than its `stale_after`, or than the default where that is 0.
unfoldable pub is_young : ℕ → Row → Bool
is_young now r =
    leb now
      (or_zero r.claimed_at + (if eqb r.stale_after 0 then default_stale_after else r.stale_after))

-- The owner is of this host and of this boot, and its process runs.
unfoldable pub is_live : Process → Row → Bool
is_live p r =
    is_text r.owner_host p.host && same_boot r.owner_boot_id p.boot_id && owner_alive p r.owner_pid

-- What `reap` requeues of the rows that it has read.
unfoldable pub is_stale : Process → ℕ → String → Row → Bool
is_stale p now name r =
    (r.name == name) && is_running r.state && not (is_young now r) && not (is_live p r)

-- The UPDATE that requeues the claim that was read.
unfoldable pub requeue_row : Row → Row → Row
requeue_row read r =
    if eqb r.id read.id
      && is_running r.state
      && is_number r.owner_pid read.owner_pid
      && is_number r.claimed_at read.claimed_at
    then record r {
      state = queued;
      owner_host = none;
      owner_pid = none;
      owner_boot_id = none;
      claimed_at = none;
      reap_count = suc r.reap_count;
    }
    else r

unfoldable pub requeue : Row → Table → Table
requeue read t = record t { rows = map (requeue_row read) t.rows }

unfoldable pub requeue_all : List Row → Table → Table
requeue_all [] t = t
requeue_all (read ∷ reads) t = requeue_all reads (requeue read t)

unfoldable pub reap : Process → ℕ → String → Table → Table
reap p now name t = requeue_all (filter (is_stale p now name) t.rows) t

-- `ORDER BY created_at LIMIT 1` over the queued rows of a name.
unfoldable pub oldest : Option Row → Row → Option Row
oldest none r = some r
oldest (some s) r = if leb r.created_at s.created_at then some r else some s

unfoldable pub oldest_queued : String → List Row → Option Row
oldest_queued name [] = none
oldest_queued name (r ∷ rs) =
    let rest = oldest_queued name rs in
    if (r.name == name) && is_queued r.state then oldest rest r else rest

unfoldable pub claim_row : Process → ℕ → ℕ → ℕ → Row → Row
claim_row p now stale_after rid r =
    if eqb r.id rid && is_queued r.state
    then record r {
      state = running;
      owner_host = some p.host;
      owner_pid = some p.pid;
      owner_boot_id = p.boot_id;
      claimed_at = some now;
      stale_after = stale_after;
    }
    else r

-- The rows that the UPDATE of a claim changes: `cur.rowcount` is not 0.
unfoldable pub claimable : ℕ → List Row → Bool
claimable rid rows = any (λ r. eqb r.id rid && is_queued r.state) rows

-- A claim: the row's id and its idempotency key.
abbrev pub Claim : Type 0
Claim = ℕ × String

unfoldable pub claim_queued : Process → ℕ → ℕ → Row → Table → Option Claim × Table
claim_queued p now stale_after read t = (
  (if claimable read.id t.rows then some (read.id, read.idempotency_key) else none),
  record t { rows = map (claim_row p now stale_after read.id) t.rows },
)

unfoldable pub new_row : Process → ℕ → ℕ → String → String → ℕ → Row
new_row p now stale_after name key id = record {
  id = id;
  name = name;
  state = running;
  idempotency_key = key;
  owner_host = some p.host;
  owner_pid = some p.pid;
  owner_boot_id = p.boot_id;
  claimed_at = some now;
  finished_at = none;
  outcome = none;
  reap_count = 0;
  stale_after = stale_after;
  created_at = now;
}

-- The INSERT whose WHERE NOT EXISTS sees an active row of the name.
unfoldable pub claim_new : Process → ℕ → ℕ → String → String → Table → Option Claim × Table
claim_new p now stale_after name key t =
    if any (λ r. (r.name == name) && is_active r) t.rows then (none, t) else (
      some (t.next_id, key),
      record {
        rows = t.rows ++ new_row p now stale_after name key t.next_id ∷ [];
        next_id = suc t.next_id;
      },
    )

-- The write of `_claim`, after its SELECT has read the oldest queued row, if any. `key` is the new UUID.
unfoldable pub claim_write :
    Process → ℕ → ℕ → String → String → Option Row → Table → Option Claim × Table
claim_write p now stale_after name key none t = claim_new p now stale_after name key t
claim_write p now stale_after name key (some read) t = claim_queued p now stale_after read t

unfoldable pub claim : Process → ℕ → ℕ → String → String → Table → Option Claim × Table
claim p now stale_after name key t =
    claim_write p now stale_after name key (oldest_queued name t.rows) t

-- The owner that `_finish` binds its UPDATE to.
pub record Owner : Type 0 where
  pub host : String
  pub pid : ℕ
  pub claimed_at : ℕ
  pub id : ℕ

unfoldable pub owns : Owner → Row → Bool
owns o r =
    is_running r.state
    && is_text r.owner_host o.host
    && is_number r.owner_pid (some o.pid)
    && is_number r.claimed_at (some o.claimed_at)
    && eqb r.id o.id

unfoldable pub finish_row : Owner → State → ℕ → String → Row → Row
finish_row o state now outcome r =
    if owns o r
    then record r { state = state; finished_at = some now; outcome = some (take 200 outcome) }
    else r

unfoldable pub finish : Owner → State → ℕ → String → Table → Table
finish o state now outcome t = record t { rows = map (finish_row o state now outcome) t.rows }
