-- ===== src/Capabilities/Select.antt =====
-- `_state_for`, which chooses the verdict of a row.
use agentic_memory_stack_for.Prelude.{ℕ, String, Bool, Option, none, some, [], ◌∷◌, if◌then◌else◌}
use agentic_memory_stack_for.Prelude.Dict.{Dict, get}
use agentic_memory_stack_for.Capabilities.Checks.{starts_with, Liveness, no_liveness, Checks}
use agentic_memory_stack_for.Capabilities.States.{
  State, alive, unknown, retired, age_state, dedup_job_state, ok_state, sparse_leg_state,
  fusion_state, canonical_key_state, put_carryover_state, mojibake_state, review_queue_state,
  drift_guard_state,
}
use agentic_memory_stack_for.Capabilities.Signals.{
  codex_auth_state, reranker_state, l1a_state, sessionstart_banner_state, mcp_shim_state,
  admission_probe_state, tier_policy_state, brand_isolation_state, offline_outbox_state,
  job_queue_state, promotion_gate_state,
}

abbrev liveness_of : Option Liveness → Liveness
liveness_of none = no_liveness
liveness_of (some jl) = jl

-- What the evaluator knows beside the checks.
pub record World : Type 0 where
  pub provider : Option (Bool × Bool)
  pub stack_version : Option String
  pub now_s : Option ℕ

-- The tests on the id, in their order, with what each returns.
abbrev pub evaluators : World → Checks → Liveness → Dict State
evaluators w c jl =
    ("mem0-api", alive)
    ∷ ("qdrant-store", ok_state c.qdrant)
    ∷ ("embedder", ok_state c.embedder)
    ∷ ("bm25-sparse-leg", sparse_leg_state c.sparse_leg)
    ∷ ("search-fusion", fusion_state c.fusion)
    ∷ ("canonical-key", canonical_key_state c.canonical_key)
    ∷ ("service-key", ok_state c.service_key)
    ∷ ("put-carryover", put_carryover_state c.put_carryover_today)
    ∷ ("mojibake-tripwire", mojibake_state c.mojibake)
    ∷ ("contradiction-review-queue", review_queue_state c.pending_contradiction_reviews)
    ∷ ("dream-cycle", age_state jl.last_dream_age_h)
    ∷ ("drift-guard", drift_guard_state c.retrieval_drift)
    ∷ ("backup-pipeline", age_state jl.backup_manifest_age_h)
    ∷ ("dedup-job", dedup_job_state jl)
    ∷ ("memory-index", age_state jl.gather_age_h)
    ∷ ("sweep-job", age_state jl.prune_age_h)
    ∷ ("codex-auth", codex_auth_state w.provider jl)
    ∷ ("reranker", reranker_state c.reranker w.now_s)
    ∷ ("l1a-extraction", l1a_state jl)
    ∷ ("sessionstart-banner", sessionstart_banner_state jl)
    ∷ ("mcp-shim", mcp_shim_state jl w.stack_version)
    ∷ ("admission-gate", admission_probe_state c.admission_probe)
    ∷ ("tier-policy", tier_policy_state c.admission_probe)
    ∷ ("brand-isolation", brand_isolation_state c.admission_probe jl)
    ∷ ("offline-outbox", offline_outbox_state jl)
    ∷ ("job-queue", job_queue_state jl)
    ∷ ("promotion-gate", promotion_gate_state c.promotion_gate)
    ∷ []

-- A row without an evaluator is unknown.
abbrev pub or_unknown : Option State → State
or_unknown none = unknown
or_unknown (some s) = s

unfoldable pub probed_state : World → Checks → Liveness → String → State
unfolding get
probed_state w c jl cid = or_unknown (get cid (evaluators w c jl))

unfoldable pub state_for : World → Checks → String → String → State
state_for w c cid probe =
    if starts_with probe "retired"
    then retired
    else if starts_with probe "none"
    then unknown
    else probed_state w c (liveness_of c.job_liveness) cid
