-- ===== src/Capabilities/States.antt =====
-- The verdict on each check of the server itself.
use agentic_memory_stack_for.Prelude.{
  ℕ, String, Bool, false, not, ◌&&◌, ◌||◌, Option, none, some, [], ◌∷◌, ◌==◌, ltb, leb, eqb,
  if◌then◌else◌,
}
use agentic_memory_stack_for.Prelude.Text.{mem}
use agentic_memory_stack_for.Capabilities.Checks.{
  starts_with, Liveness, SparseLeg, Fusion, CanonicalKey, PutCarryover, Mojibake, Drift,
}

pub data State : Type 0 where
  alive degraded dead unknown retired : State

abbrev pub fresh_h : ℕ
fresh_h = 48000

abbrev pub dead_h : ℕ
dead_h = 96000

abbrev pub above : ℕ → Option ℕ → Bool
above n none = false
above n (some x) = ltb n x

abbrev pub below : ℕ → Option ℕ → Bool
below n none = false
below n (some x) = ltb x n

abbrev pub within : ℕ → Option ℕ → Bool
within n none = false
within n (some x) = leb x n

unfoldable pub age_state : Option ℕ → State
age_state none = unknown
age_state (some age) = if leb age fresh_h then alive else if leb age dead_h then degraded else dead

-- A summary within 36 hours: the job's outcome, and whether it compared a pair.
unfoldable dedup_outcome_state : Liveness → State
dedup_outcome_state jl =
    if starts_with jl.dedup_last_outcome "degraded" || starts_with jl.dedup_last_outcome "no-op"
    then degraded
    else if above 1000 jl.dedup_last_scanned && within 0 jl.dedup_last_compared_pairs
    then degraded
    else alive

abbrev dedup_summary_state : Liveness → Option (Option ℕ) → State
dedup_summary_state jl none = age_state jl.dedup_report_age_h
dedup_summary_state jl (some none) = degraded
dedup_summary_state jl (some (some age)) =
    if ltb dead_h age then dead else if ltb 36000 age then degraded else dedup_outcome_state jl

unfoldable pub dedup_job_state : Liveness → State
unfolding age_state dedup_outcome_state
dedup_job_state jl = dedup_summary_state jl jl.dedup_summary_age_h

unfoldable pub ok_state : Option Bool → State
ok_state none = unknown
ok_state (some ok) = if ok then alive else dead

unfoldable pub sparse_leg_state : Option SparseLeg → State
sparse_leg_state none = unknown
sparse_leg_state (some c) =
    if not c.ok then dead else if below 950 c.coverage then degraded else alive

unfoldable pub fusion_state : Option Fusion → State
fusion_state none = unknown
fusion_state (some c) = if not c.ok then dead else if c.mode == "mem0" then degraded else alive

abbrev is_source : Option String → Bool
is_source none = false
is_source (some s) = mem s ("runtime" ∷ "dpapi" ∷ "credential" ∷ [])

unfoldable pub canonical_key_state : Option CanonicalKey → State
unfolding mem
canonical_key_state none = unknown
canonical_key_state (some c) =
    if not c.ok then dead else if c.present && is_source c.source then alive else degraded

unfoldable pub put_carryover_state : Option PutCarryover → State
put_carryover_state none = unknown
put_carryover_state (some c) =
    if ltb 0 c.keys_lost
    then dead
    else if eqb c.puts 0
    then unknown
    else if ltb 0 c.keys_restored
    then degraded
    else alive

unfoldable pub mojibake_state : Option Mojibake → State
mojibake_state none = unknown
mojibake_state (some c) = if c.error then unknown else if ltb 0 c.hits then degraded else alive

unfoldable pub review_queue_state : Option ℕ → State
review_queue_state none = unknown
review_queue_state (some depth) = if ltb 50 depth then degraded else alive

unfoldable pub drift_guard_state : Option Drift → State
drift_guard_state none = unknown
drift_guard_state (some c) =
    if not c.state_present || c.error
    then unknown
    else if leb 2 c.consecutive_snapshot_failures || above dead_h c.age_hours
    then dead
    else if c.alarm || c.compat_fallback
    then degraded
    else if within fresh_h c.age_hours
    then alive
    else degraded
