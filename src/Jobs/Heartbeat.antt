-- ===== src/Jobs/Heartbeat.antt =====
-- scripts/wsl/jobs.py: what `_refresh_heartbeat` writes of the table. The rounding of an age to a tenth
-- of a second is left out.
use agentic_memory_stack_for.Prelude.{
  ℕ, suc, ◌+◌, ◌-◌, ◌≤◌, String, Bool, true, false, not, ◌&&◌, Option, none, some, List, [], ◌∷◌,
  arith, ltb, leb, eqb, if◌then◌else◌,
}
use agentic_memory_stack_for.Jobs.Queue.{
  State, failed, Row, Table, is_queued, is_running, is_active,
}
use agentic_memory_stack_for.Jobs.Active.{is_active_of, count_active}

pub record Heartbeat : Type 0 where
  pub ts : ℕ
  pub queued : ℕ
  pub running : ℕ
  pub failed_24h : ℕ
  pub reaped_24h : ℕ
  pub oldest_running_age : Option ℕ
  pub oldest_queued_age : Option ℕ

abbrev pub day : ℕ
day = 86400000000

unfoldable pub is_failed_state : State → Bool
is_failed_state failed = true
is_failed_state s = false

-- `t > now - 86400`, false on NULL.
unfoldable pub is_within_day : ℕ → Option ℕ → Bool
is_within_day now none = false
is_within_day now (some t) = ltb now (t + day)

-- `SUM(CASE WHEN p THEN 1 ELSE 0 END)`, 0 on an empty table.
unfoldable pub count : (Row → Bool) → List Row → ℕ
count p [] = 0
count p (r ∷ rs) = let rest = count p rs in if p r then suc rest else rest

abbrev pub smaller : Option ℕ → Option ℕ → Option ℕ
smaller none b = b
smaller (some a) none = some a
smaller (some a) (some b) = if leb a b then some a else some b

-- `MIN(CASE WHEN p THEN f END)`: NULL counts for nothing.
unfoldable pub minimum : (Row → Bool) → (Row → Option ℕ) → List Row → Option ℕ
minimum p f [] = none
minimum p f (r ∷ rs) = let rest = minimum p f rs in if p r then smaller (f r) rest else rest

abbrev pub age_of : ℕ → Option ℕ → Option ℕ
age_of now none = none
age_of now (some t) = some (now - t)

unfoldable pub heartbeat : ℕ → Table → Heartbeat
heartbeat now t = record {
  ts = now;
  queued = count (λ r. is_queued r.state) t.rows;
  running = count (λ r. is_running r.state) t.rows;
  failed_24h = count (λ r. is_failed_state r.state && is_within_day now r.finished_at) t.rows;
  reaped_24h = count (λ r. not (eqb r.reap_count 0) && is_within_day now r.claimed_at) t.rows;
  oldest_running_age = age_of now (minimum (λ r. is_running r.state) (λ r. r.claimed_at) t.rows);
  oldest_queued_age = age_of now (minimum (λ r. is_queued r.state) (λ r. some r.created_at) t.rows);
}

count_active-count :
    (name : String) (rows : List Row)
    → count_active name rows
      ≤ count (λ r. is_queued r.state) rows + count (λ r. is_running r.state) rows
unfolding count_active count is_active_of is_active
count_active-count name [] = omega arith
count_active-count name (r ∷ rs) = ground (arith, count_active-count name rs)

-- The heartbeat counts every active row of a name, as queued or as running.
pub count_active-heartbeat :
    (now : ℕ) (name : String) (t : Table)
    → count_active name t.rows ≤ (heartbeat now t).queued + (heartbeat now t).running
unfolding heartbeat
count_active-heartbeat now name t = count_active-count name t.rows
