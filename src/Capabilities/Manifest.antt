-- ===== src/Capabilities/Manifest.antt =====
-- The manifest and its evaluator, with the self-probe of the admission gate.
use Prim.Native.String.{◌++◌ as ◌<>◌}
use agentic_memory_stack_for.Prelude.Codes.{str_lt}
use agentic_memory_stack_for.Prelude.{
  String, Bool, true, false, not, ◌&&◌, ◌||◌, Option, none, some, List, [], ◌∷◌, ◌==◌,
  if◌then◌else◌, is_some,
}
use agentic_memory_stack_for.Prelude.Text.{strip, lower}
use agentic_memory_stack_for.Prelude.Dict.{Dict, get, put}
use agentic_memory_stack_for.Payload.{Payload, text, scalar, null}
use agentic_memory_stack_for.Admission.Policy.{
  Floats, Settings, Clock, Hit, absent, default_policy_for_class,
}
use agentic_memory_stack_for.Admission.Policy as Policy
use agentic_memory_stack_for.Capabilities.Checks.{AdmissionProbe, Checks}
use agentic_memory_stack_for.Capabilities.States.{State, dead, unknown}
use agentic_memory_stack_for.Capabilities.Select.{World, state_for}

-- The text of `what` and the documentation flag decide nothing.
pub record Row : Type 0 where
  pub id : String
  pub probe : String
  pub required : String

abbrev pub row : String → String → String → Row
row id probe required = record { id = id; probe = probe; required = required }

unfoldable pub capabilities : List Row
capabilities =
    row "mem0-api" ("/health/deep responded (this evaluation ran inside it)") "both"
    ∷ row "qdrant-store" ("checks.qdrant (collection status + point count)") "both"
    ∷ row "embedder" ("checks.embedder") "both"
    ∷ row "bm25-sparse-leg" ("checks.sparse_leg (deterministic oldest-point canary)") "both"
    ∷ row "search-fusion" ("checks.fusion (binding + searches that bypassed it)") "both"
    ∷ row "canonical-key" ("checks.canonical_key") "brain"
    ∷ row "service-key" ("checks.service_key") "brain"
    ∷ row "put-carryover"
        ("checks.put_carryover_today (daily activity counters); unknown-on-idle "
          <> "by design (F9) — exerciser: Test-MemoryStack I13 PUT canary")
        "both"
    ∷ row "mojibake-tripwire" ("checks.mojibake (payload scan)") "both"
    ∷ row "contradiction-review-queue" ("checks.pending_contradiction_reviews (queue depth)")
        "brain"
    ∷ row "dream-cycle" ("job_liveness.last_dream_age_h (throttle marker content)") "brain"
    ∷ row "drift-guard" ("retrieval_drift (~/.mem0/retrieval-drift-state.json)") "brain"
    ∷ row "backup-pipeline" ("job_liveness.backup_manifest_age_h (newest manifest age)") "brain"
    ∷ row "dedup-job"
        ("job_liveness.dedup_summary_age_h + dedup_last_* (the job's own summary"
          <> ": degraded on compared_pairs==0 with scanned>1000, a degraded/no-op ou"
          <> "tcome, or no summary within 36h)")
        "brain"
    ∷ row "memory-index" ("job_liveness.gather_age_h (gather.json receipt age)") "brain"
    ∷ row "sweep-job" ("job_liveness.prune_age_h (prune.json receipt age)") "brain"
    ∷ row "codex-auth"
        ("Codex: derived, a fresh dream ran, therefore its judge authenticated; "
          <> "Claude API: the key file and the SDK are present")
        "brain"
    ∷ row "reranker"
        ("checks.reranker (PASSIVE counters bumped by real search reranks; no ac"
          <> "tive probe here by F11 — active 3-doc probe is Test-MemoryStack L5)")
        "optional"
    ∷ row "l1a-extraction"
        ("job_liveness.l1a_attempt_age_h vs l1a_success_age_h (two-signal, F12: "
          <> "convicts only attempt-fresh + success-stale >96h; capped at degraded)")
        "brain"
    ∷ row "sessionstart-banner"
        ("job_liveness.sessionstart_banner_age_h (unconditional stamp at the top"
          <> " of storage-cap-check.sh) cross-checked against l1a_attempt_age_h")
        "both"
    ∷ row "mcp-shim"
        ("job_liveness.mcp_shim_receipt_age_h + mcp_shim_host_match + mcp_shim_s"
          <> "tack_version (host-keyed start receipt; version skew = stale launch pa" <> "th)")
        "brain"
    ∷ row "admission-gate"
        ("checks.admission_probe (in-process AdmissionPolicy.evaluate() self-pro"
          <> "be, zero I/O)")
        "both"
    ∷ row "tier-policy"
        ("checks.admission_probe.tier_rejected — read-half server-probed; write-"
          <> "half proven by Test-MemoryStack I-rows on demand")
        "both"
    ∷ row "brand-isolation"
        ("checks.admission_probe.brand_rejected (read half) + job_liveness.brand"
          <> "_scope_misscoped/brand_scope_age_h (nightly write-side audit)")
        "both"
    ∷ row "offline-outbox"
        ("job_liveness.outbox_depth + outbox_replayed_age_h + outbox_drain_log_a"
          <> "ge_h — evaluated on the REPLICA only (F8 keeps it non-convicting on a "
          <> "brain box)")
        "replica"
    ∷ row "job-queue"
        ("job_liveness.jobs_heartbeat_age_h (age-gates the mirror) + jobs_failed"
          <> "_24h + jobs_oldest_running_age_h + jobs_oldest_queued_age_h")
        "optional"
    ∷ row "promotion-gate"
        ("checks.promotion_gate.mode (env MEM0_PROMOTION_GATE_MODE > stack.env >"
          <> " shadow default, the dream's own resolution); degraded on a brain that"
          <> " is not enforcing")
        "brain"
    ∷ []

abbrev is_role : Option String → String → Bool
is_role none r = false
is_role (some s) r = s == r

unfoldable pub required_applies : String → Option String → Bool
required_applies required role =
    if required == "both"
    then true
    else if required == "brain" || required == "replica"
    then is_role role required
    else false

-- The role that `evaluate` uses: `brain`, `replica`, or none.
unfoldable pub known_role : Option String → Option String
known_role none = none
known_role (some r) =
    let s = lower (strip r) in if s == "brain" || s == "replica" then some s else none

-- `sorted`
unfoldable pub insert : String → List String → List String
insert s [] = s ∷ []
insert s (t ∷ ts) = let rest = insert s ts in if str_lt t s then t ∷ rest else s ∷ t ∷ ts

unfoldable pub sorted : List String → List String
unfolding insert
sorted [] = []
sorted (s ∷ ss) = insert s (sorted ss)

abbrev pub is_dead : Option State → Bool
is_dead (some dead) = true
is_dead s = false

abbrev is_unknown : State → Bool
is_unknown unknown = true
is_unknown s = false

-- `{row["id"]: _state_for(...) for row in caps}`, built over `d`.
unfoldable pub states_from : World → Checks → List Row → Dict State → Dict State
unfolding put
states_from w c [] d = d
states_from w c (r ∷ rs) d = states_from w c rs (put r.id (state_for w c r.id r.probe) d)

-- A row that reads dead and is required of this box.
unfoldable pub convicts : Dict State → Option String → Row → Bool
unfolding get required_applies
convicts d role r = is_dead (get r.id d) && required_applies r.required role

unfoldable pub dead_ids : Dict State → Option String → List Row → List String
dead_ids d role [] = []
dead_ids d role (r ∷ rs) =
    let rest = dead_ids d role rs in if convicts d role r then r.id ∷ rest else rest

unfoldable unknown_ids : Dict State → List String
unknown_ids [] = []
unknown_ids ((cid, s) ∷ d) = let rest = unknown_ids d in if is_unknown s then cid ∷ rest else rest

pub record Verdict : Type 0 where
  pub role : Option String
  pub states : Dict State
  pub dead_required : List String
  pub unknown_ids : List String

unfoldable pub evaluate : World → Checks → Option String → List Row → Verdict
unfolding known_role states_from convicts dead_ids unknown_ids sorted
evaluate w c role caps =
    let r = known_role role in
    let states = states_from w c caps [] in
    record {
      role = r;
      states = states;
      dead_required = sorted (dead_ids states r caps);
      unknown_ids = sorted (unknown_ids states);
    }

abbrev pub probe_hit : {F : Type 0} → String → Payload → Hit F
probe_hit id meta = record {
  id = text id;
  metadata = meta;
  created_at = scalar null;
  cosine = absent;
  rerank_score = absent;
}

-- The three synthetic records, judged by the durable policy on a scope with no brand.
unfoldable pub admission_selfprobe : (floats : Floats) → Settings floats.F → Clock → AdmissionProbe
admission_selfprobe floats settings clock =
    let policy = default_policy_for_class settings "durable" in
    let rejects =
      λ (h : Hit floats.F). is_some (Policy.evaluate floats clock policy h [] "durable" none) in
    let tier = rejects (probe_hit "selfprobe-canonical" (("tier", text "canonical") ∷ [])) in
    let brand = rejects (
      probe_hit "selfprobe-branded"
        (("tier", text "evidence") ∷ ("brand", text "selfprobe-brand") ∷ [])) in
    let neutral = not (rejects (probe_hit "selfprobe-neutral" (("tier", text "evidence") ∷ []))) in
    record {
      ok = tier && brand && neutral;
      tier_rejected = some tier;
      brand_rejected = some brand;
      neutral_admitted = some neutral;
      error = false;
    }
