-- ===== src/Capabilities/Signals.antt =====
-- The verdict on each signal of a job or a session.
use agentic_memory_stack_for.Prelude.{
  ℕ, ◌-◌, ◌*◌, String, Bool, true, false, not, ◌&&◌, ◌||◌, Option, none, some, ◌==◌, ltb, leb,
  if◌then◌else◌,
}
use agentic_memory_stack_for.Prelude.Text.{is_empty}
use agentic_memory_stack_for.Capabilities.Checks.{Liveness, Reranker, AdmissionProbe, PromotionGate}
use agentic_memory_stack_for.Capabilities.States.{
  State, alive, degraded, dead, unknown, fresh_h, dead_h, above, within,
}

-- `provider` is the health of the Claude API, where that is the provider: its key and its SDK.
unfoldable pub codex_auth_state : Option (Bool × Bool) → Liveness → State
codex_auth_state (some (key_present, sdk)) jl = if key_present && sdk then alive else dead
codex_auth_state none jl = if within fresh_h jl.last_dream_age_h then alive else unknown

abbrev pub fresh : Option ℕ → Bool
fresh age = within fresh_h age

-- Seconds from the last success to now; three thousand six hundred are an hour.
abbrev too_long_ago : Option ℕ → ℕ → Bool
too_long_ago none last_ok = false
too_long_ago (some now) last_ok = ltb (48 * 3600) (now - last_ok)

abbrev reranker_last : Option ℕ → ℕ → Option ℕ → State
reranker_last now fails none = if ltb 0 fails then degraded else unknown
reranker_last now fails (some last_ok) =
    if ltb 0 fails then degraded else if too_long_ago now last_ok then unknown else alive

unfoldable pub reranker_state : Option Reranker → Option ℕ → State
reranker_state none now = unknown
reranker_state (some c) now =
    if leb 3 c.consecutive_rerank_failures
    then dead
    else reranker_last now c.consecutive_rerank_failures c.last_rerank_ok_ts

-- With a success, which is not fresh.
unfoldable pub l1a_state : Liveness → State
l1a_state jl =
    if fresh jl.l1a_success_age_h
    then alive
    else if fresh jl.l1a_attempt_age_h && above 96000 jl.l1a_success_age_h
    then degraded
    else unknown

unfoldable pub sessionstart_banner_state : Liveness → State
sessionstart_banner_state jl =
    if fresh jl.sessionstart_banner_age_h
    then alive
    else if fresh jl.l1a_attempt_age_h
    then degraded
    else unknown

abbrev pub is_false : Option Bool → Bool
is_false none = false
is_false (some b) = not b

abbrev other_version : Option String → Option String → Bool
other_version none theirs = false
other_version (some v) none = false
other_version (some v) (some t) = not (is_empty v) && not (is_empty t) && not (t == v)

-- A foreign box's receipt counts as absent.
unfoldable pub mcp_shim_state : Liveness → Option String → State
mcp_shim_state jl stack_version =
    if not (is_false jl.mcp_shim_host_match) && fresh jl.mcp_shim_receipt_age_h
    then (if other_version stack_version jl.mcp_shim_stack_version then degraded else alive)
    else if fresh jl.l1a_attempt_age_h
    then degraded
    else unknown

unfoldable pub admission_probe_state : Option AdmissionProbe → State
admission_probe_state none = unknown
admission_probe_state (some c) =
    if c.error && not c.ok then unknown else if c.ok then alive else dead

unfoldable pub rejected_state : Option Bool → State
rejected_state none = unknown
rejected_state (some r) = if r then alive else dead

unfoldable pub tier_policy_state : Option AdmissionProbe → State
unfolding rejected_state
tier_policy_state none = unknown
tier_policy_state (some c) = rejected_state c.tier_rejected

abbrev audited : Liveness → Option Bool → State
audited jl none = unknown
audited jl (some false) = dead
audited jl (some true) =
    if above 0 jl.brand_scope_misscoped || above dead_h jl.brand_scope_age_h
    then degraded
    else alive

unfoldable pub brand_isolation_state : Option AdmissionProbe → Liveness → State
brand_isolation_state none jl = unknown
brand_isolation_state (some c) jl = audited jl c.brand_rejected

unfoldable pub offline_outbox_state : Liveness → State
offline_outbox_state jl =
    if above 0 jl.outbox_depth
    then (if fresh jl.outbox_drain_log_age_h then degraded else dead)
    else if within 720000 jl.outbox_replayed_age_h
    then alive
    else unknown

abbrev heartbeat_state : Liveness → Option ℕ → State
heartbeat_state jl none = unknown
heartbeat_state jl (some age) =
    if ltb 192000 age
      || above 0 jl.jobs_failed_24h
      || above 48000 jl.jobs_oldest_running_age_h
      || above 48000 jl.jobs_oldest_queued_age_h
    then degraded
    else alive

unfoldable pub job_queue_state : Liveness → State
job_queue_state jl = heartbeat_state jl jl.jobs_heartbeat_age_h

abbrev pub is_brain : Option String → Bool
is_brain none = false
is_brain (some r) = r == "brain"

unfoldable pub promotion_gate_state : Option PromotionGate → State
promotion_gate_state none = unknown
promotion_gate_state (some c) =
    if not (is_brain c.role) then unknown else if c.mode == "enforce" then alive else degraded
