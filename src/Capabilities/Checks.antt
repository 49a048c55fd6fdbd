-- ===== src/Capabilities/Checks.antt =====
-- The checks of /health/deep as the manifest reads them. A check that is no dict is `none`, a field has
-- the type that its producer writes, an age counts thousandths of an hour, a coverage thousandths.
use agentic_memory_stack_for.Prelude.{eqb, ℕ, String, Bool, true, false, ◌&&◌, Option, none}
use Prim.Native.Char.{code}

abbrev pub starts_with : String → String → Bool
starts_with s String.[] = true
starts_with String.[] (String.◌∷◌ p ps) = false
starts_with (String.◌∷◌ c cs) (String.◌∷◌ p ps) = eqb (code c) (code p) && starts_with cs ps

-- `job_liveness`. The key `dedup_summary_age_h` may be missing: `none`.
pub record Liveness : Type 0 where
  pub dedup_summary_age_h : Option (Option ℕ)
  pub dedup_report_age_h : Option ℕ
  pub dedup_last_outcome : String
  pub dedup_last_scanned : Option ℕ
  pub dedup_last_compared_pairs : Option ℕ
  pub last_dream_age_h : Option ℕ
  pub backup_manifest_age_h : Option ℕ
  pub gather_age_h : Option ℕ
  pub prune_age_h : Option ℕ
  pub l1a_attempt_age_h : Option ℕ
  pub l1a_success_age_h : Option ℕ
  pub sessionstart_banner_age_h : Option ℕ
  pub mcp_shim_receipt_age_h : Option ℕ
  pub mcp_shim_host_match : Option Bool
  pub mcp_shim_stack_version : Option String
  pub brand_scope_misscoped : Option ℕ
  pub brand_scope_age_h : Option ℕ
  pub outbox_depth : Option ℕ
  pub outbox_drain_log_age_h : Option ℕ
  pub outbox_replayed_age_h : Option ℕ
  pub jobs_heartbeat_age_h : Option ℕ
  pub jobs_failed_24h : Option ℕ
  pub jobs_oldest_running_age_h : Option ℕ
  pub jobs_oldest_queued_age_h : Option ℕ

-- `{}`
abbrev pub no_liveness : Liveness
no_liveness = record {
  dedup_summary_age_h = none;
  dedup_report_age_h = none;
  dedup_last_outcome = "";
  dedup_last_scanned = none;
  dedup_last_compared_pairs = none;
  last_dream_age_h = none;
  backup_manifest_age_h = none;
  gather_age_h = none;
  prune_age_h = none;
  l1a_attempt_age_h = none;
  l1a_success_age_h = none;
  sessionstart_banner_age_h = none;
  mcp_shim_receipt_age_h = none;
  mcp_shim_host_match = none;
  mcp_shim_stack_version = none;
  brand_scope_misscoped = none;
  brand_scope_age_h = none;
  outbox_depth = none;
  outbox_drain_log_age_h = none;
  outbox_replayed_age_h = none;
  jobs_heartbeat_age_h = none;
  jobs_failed_24h = none;
  jobs_oldest_running_age_h = none;
  jobs_oldest_queued_age_h = none;
}

pub record SparseLeg : Type 0 where
  pub ok : Bool
  pub coverage : Option ℕ

pub record Fusion : Type 0 where
  pub ok : Bool
  pub mode : String

pub record CanonicalKey : Type 0 where
  pub ok : Bool
  pub present : Bool
  pub source : Option String

pub record PutCarryover : Type 0 where
  pub keys_lost : ℕ
  pub puts : ℕ
  pub keys_restored : ℕ

pub record Mojibake : Type 0 where
  pub error : Bool
  pub hits : ℕ

pub record Drift : Type 0 where
  pub state_present : Bool
  pub error : Bool
  pub consecutive_snapshot_failures : ℕ
  pub age_hours : Option ℕ
  pub alarm : Bool
  pub compat_fallback : Bool

pub record Reranker : Type 0 where
  pub consecutive_rerank_failures : ℕ
  pub last_rerank_ok_ts : Option ℕ

pub record AdmissionProbe : Type 0 where
  pub ok : Bool
  pub tier_rejected : Option Bool
  pub brand_rejected : Option Bool
  pub neutral_admitted : Option Bool
  pub error : Bool

pub record PromotionGate : Type 0 where
  pub role : Option String
  pub mode : String

pub record Checks : Type 0 where
  pub qdrant : Option Bool
  pub embedder : Option Bool
  pub sparse_leg : Option SparseLeg
  pub fusion : Option Fusion
  pub canonical_key : Option CanonicalKey
  pub service_key : Option Bool
  pub put_carryover_today : Option PutCarryover
  pub mojibake : Option Mojibake
  pub pending_contradiction_reviews : Option ℕ
  pub retrieval_drift : Option Drift
  pub reranker : Option Reranker
  pub admission_probe : Option AdmissionProbe
  pub promotion_gate : Option PromotionGate
  pub job_liveness : Option Liveness

-- A dict without checks.
abbrev pub no_checks : Checks
no_checks = record {
  qdrant = none;
  embedder = none;
  sparse_leg = none;
  fusion = none;
  canonical_key = none;
  service_key = none;
  put_carryover_today = none;
  mojibake = none;
  pending_contradiction_reviews = none;
  retrieval_drift = none;
  reranker = none;
  admission_probe = none;
  promotion_gate = none;
  job_liveness = none;
}
