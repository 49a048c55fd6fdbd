-- ===== src/Capabilities/Verdict.antt =====
-- What the manifest makes of silence: with no check nothing reads alive, and nothing is convicted.
use agentic_memory_stack_for.Prelude.{
  ℕ, String, ◌≡◌, ◌≢◌, refl, sym, ap, ◌∙◌, inl, inr, arith, Bool, true, false, Option, none, some,
  List, [], ◌∷◌, ◌==◌, eq_iff, if◌then◌else◌, ==_false, All, Bool-cases,
}
use agentic_memory_stack_for.Prelude.Dict.{Dict, get, put, get-put}
use agentic_memory_stack_for.Capabilities.Checks.{no_checks, no_liveness, starts_with}
use agentic_memory_stack_for.Capabilities.States.{
  State, alive, age_state, dedup_job_state, ok_state, sparse_leg_state, fusion_state,
  canonical_key_state, put_carryover_state, mojibake_state, review_queue_state, drift_guard_state,
}
use agentic_memory_stack_for.Capabilities.Signals.{
  codex_auth_state, reranker_state, l1a_state, sessionstart_banner_state, mcp_shim_state,
  admission_probe_state, tier_policy_state, brand_isolation_state, offline_outbox_state,
  job_queue_state, promotion_gate_state,
}
use agentic_memory_stack_for.Capabilities.Select.{
  World, state_for, probed_state, evaluators, or_unknown,
}
use agentic_memory_stack_for.Capabilities.Manifest.{
  Row, known_role, sorted, is_dead, states_from, convicts, dead_ids, evaluate,
}

-- A box whose judge is not the Claude API.
abbrev pub without_provider : Option String → Option ℕ → World
without_provider stack_version now_s = record {
  provider = none;
  stack_version = stack_version;
  now_s = now_s;
}

abbrev Quiet : Dict State → Type 0
Quiet d = All (λ (e : String × State). e.1 ≢ alive) d

quiet_if :
    (b : Bool) (s : State) (o : Option State)
    → s ≢ alive
    → or_unknown o ≢ alive
    → or_unknown (if b then some s else o) ≢ alive
quiet_if true s o h k = h
quiet_if false s o h k = k

get-Quiet : (k : String) (d : Dict State) → Quiet d → or_unknown (get k d) ≢ alive
unfolding get
get-Quiet k [] q = λ h. cc
get-Quiet k ((j, s) ∷ d) q = quiet_if (j == k) s (get k d) q.0 (get-Quiet k d q.1)

abbrev others : Dict State → Dict State
others [] = []
others (e ∷ d) = d

evaluators-Quiet :
    (v : Option String) (now : Option ℕ)
    → Quiet (others (evaluators (without_provider v now) no_checks no_liveness))
unfolding age_state dedup_job_state ok_state sparse_leg_state fusion_state canonical_key_state
    put_carryover_state mojibake_state review_queue_state drift_guard_state codex_auth_state
    reranker_state l1a_state sessionstart_banner_state mcp_shim_state admission_probe_state
    tier_policy_state brand_isolation_state offline_outbox_state job_queue_state
    promotion_gate_state
evaluators-Quiet v now = ground arith

-- With no check, no id but that of the server itself reads alive.
probed_state_silent :
    (v : Option String) (now : Option ℕ) (cid : String)
    → cid ≢ "mem0-api"
    → probed_state (without_provider v now) no_checks no_liveness cid ≢ alive
unfolding probed_state get
probed_state_silent v now cid n = rw (==_false "mem0-api" cid (λ e. n (sym e))) (
    get-Quiet cid (others (evaluators (without_provider v now) no_checks no_liveness))
      (evaluators-Quiet v now))

state_for_silent :
    (v : Option String) (now : Option ℕ) (cid probe : String)
    → cid ≢ "mem0-api"
    → state_for (without_provider v now) no_checks cid probe ≢ alive
unfolding state_for
state_for_silent v now cid probe n = elim (Bool-cases (starts_with probe "retired")) [
  | inl e ↦ rw e (λ h. cc)
  | inr e ↦ elim (Bool-cases (starts_with probe "none")) [
    | inl f ↦ rw (e, f) (λ h. cc)
    | inr f ↦ rw (e, f) (probed_state_silent v now cid n)
  ]
]

module _ (v : Option String) (now : Option ℕ) (cid : String) where
  states_from_silent :
      (caps : List Row) (d : Dict State)
      → cid ≢ "mem0-api"
      → get cid d ≢ some alive
      → get cid (states_from (without_provider v now) no_checks caps d) ≢ some alive
  unfolding states_from
  states_from_silent [] d n h = h
  states_from_silent (r ∷ rs) d n h =
      let s = state_for (without_provider v now) no_checks r.id r.probe in
      states_from_silent rs (put r.id s d) n (put_silent r s (state_for_silent v now r.id r.probe))
    where
      put_silent :
          (r : Row) (s : State)
          → (r.id ≢ "mem0-api" → s ≢ alive)
          → get cid (put r.id s d) ≢ some alive
      put_silent r s q = elim (Bool-cases (r.id == cid)) [
        | inl e ↦
            rw (get-put r.id cid s d, e) (λ g. q (λ k. n (sym ((eq_iff r.id cid).0 e) ∙ k)) (cc))
        | inr e ↦ rw (get-put r.id cid s d, e) h
      ]

  -- With no check at all, on a box whose judge is not the Claude API, no capability but the server
  -- itself reads alive.
  pub evaluate_silent :
      (role : Option String) (caps : List Row)
      → cid ≢ "mem0-api"
      → get cid (evaluate (without_provider v now) no_checks role caps).states ≢ some alive
  unfolding evaluate get
  evaluate_silent role caps n = states_from_silent caps [] n (λ h. cc)

dead_ids_none :
    (d : Dict State) (role : Option String) (rs : List Row)
    → ((i : String) → is_dead (get i d) ≡ false)
    → dead_ids d role rs ≡ []
unfolding dead_ids convicts
dead_ids_none d role [] h = refl
dead_ids_none d role (r ∷ rs) h = ground (arith, h r.id, dead_ids_none d role rs h)

abbrev NoneDead : Dict State → Type 0
NoneDead d = All (λ (e : String × State). is_dead (some e.1) ≡ false) d

dead_if :
    (b : Bool) (s : State) (o : Option State)
    → is_dead (some s) ≡ false
    → is_dead (some (or_unknown o)) ≡ false
    → is_dead (some (or_unknown (if b then some s else o))) ≡ false
dead_if true s o h k = h
dead_if false s o h k = k

get-NoneDead :
    (k : String) (d : Dict State) → NoneDead d → is_dead (some (or_unknown (get k d))) ≡ false
unfolding get
get-NoneDead k [] q = refl
get-NoneDead k ((j, s) ∷ d) q = dead_if (j == k) s (get k d) q.0 (get-NoneDead k d q.1)

module _ (v : Option String) (now : Option ℕ) where
  abbrev box : World
  box = without_provider v now

  evaluators-NoneDead : NoneDead (evaluators box no_checks no_liveness)
  unfolding age_state dedup_job_state ok_state sparse_leg_state fusion_state canonical_key_state
      put_carryover_state mojibake_state review_queue_state drift_guard_state codex_auth_state
      reranker_state l1a_state sessionstart_banner_state mcp_shim_state admission_probe_state
      tier_policy_state brand_isolation_state offline_outbox_state job_queue_state
      promotion_gate_state
  evaluators-NoneDead = ground arith

  state_for_none_dead :
      (cid probe : String) → is_dead (some (state_for box no_checks cid probe)) ≡ false
  unfolding state_for probed_state
  state_for_none_dead cid probe = elim (Bool-cases (starts_with probe "retired")) [
    | inl e ↦ rw e refl
    | inr e ↦ elim (Bool-cases (starts_with probe "none")) [
      | inl f ↦ rw (e, f) refl
      | inr f ↦
          rw (e, f) (get-NoneDead cid (evaluators box no_checks no_liveness) evaluators-NoneDead)
    ]
  ]

  states_from_none_dead :
      (caps : List Row) (d : Dict State)
      → ((i : String) → is_dead (get i d) ≡ false)
      → (i : String) → is_dead (get i (states_from box no_checks caps d)) ≡ false
  unfolding states_from
  states_from_none_dead [] d h i = h i
  states_from_none_dead (r ∷ rs) d h i =
      states_from_none_dead rs (put r.id (state_for box no_checks r.id r.probe) d) put_none_dead i
    where
      put_none_dead :
          (j : String) → is_dead (get j (put r.id (state_for box no_checks r.id r.probe) d)) ≡ false
      put_none_dead j = elim (Bool-cases (r.id == j)) [
        | inl e ↦
            rw (get-put r.id j (state_for box no_checks r.id r.probe) d, e)
              (state_for_none_dead r.id r.probe)
        | inr e ↦ rw (get-put r.id j (state_for box no_checks r.id r.probe) d, e) (h j)
      ]

  -- With no check at all, on a box whose judge is not the Claude API, whatever its role and its
  -- manifest, no capability is convicted.
  pub evaluate-convicts_none :
      (role : Option String) (caps : List Row)
      → (evaluate box no_checks role caps).dead_required ≡ []
  unfolding evaluate sorted get
  evaluate-convicts_none role caps = ap sorted (
      dead_ids_none (states_from box no_checks caps []) (known_role role) caps
        (states_from_none_dead caps [] (λ i. refl)))
