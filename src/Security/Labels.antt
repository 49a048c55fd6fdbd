-- ===== src/Security/Labels.antt =====
-- mem0-server/security_invariants.py: the job labels, the service credential that proves one, and
-- the metadata keys that a label may write. An `HTTPException` is its status and the words that
-- begin its detail.
use agentic_memory_stack_for.Prelude.{
  ℕ, String, Bool, true, false, not, ◌&&◌, ◌||◌, Option, none, some, List, [], ◌∷◌, ◌++◌, ◌==◌,
  filter, if◌then◌else◌, is_some,
}
use agentic_memory_stack_for.Prelude.Text.{is_empty, strip, lower, mem}
use agentic_memory_stack_for.Payload.{Value, is_text}

pub data Checked {ℓ} (A : Type ℓ) : Type ℓ where
  ok : A → Checked A
  http : ℕ → String → Checked A

abbrev pub valid_hmac_actions : List String
valid_hmac_actions = "put" ∷ "delete" ∷ "patch_metadata" ∷ "merge_goals" ∷ "promote" ∷ "demote" ∷ []

-- The signed action that a PATCH of the tier needs. `none` is an unknown record.
unfoldable pub tier_change_hmac_action : Option String → String → Option String
tier_change_hmac_action current target =
    if target == "canonical" then some "promote" else elim current [
      | none ↦ none
      | some tier ↦
          if tier == "canonical"
          then some "demote"
          else if (tier == "insight") && not (target == "insight")
          then some "demote"
          else none
    ]

abbrev pub insight_allowed_actors : List String
insight_allowed_actors = "c1-consolidator" ∷ "dream-consolidator" ∷ "c1-dream-consolidator" ∷ []

-- `TRUSTED_PATCH_ACTORS.get(actor)`
unfoldable pub trusted_patch_keys : String → Option (List String)
trusted_patch_keys actor =
    if actor == "stamp-retired-v013"
    then some ("retired_at" ∷ [])
    else if actor == "contradiction-sweep-v019"
    then some (
        "contradicts_canonical" ∷ "contradiction_checked_at" ∷ "contradicts_canonical_pending" ∷ [])
    else none

-- `LEGACY_PATCH_ACTOR_KEYS.get(actor)`
unfoldable pub legacy_patch_keys : String → Option (List String)
legacy_patch_keys actor =
    if actor == "backfill-apply-v013"
    then some ("retrievable" ∷ [])
    else if actor == "decay-scan"
    then some ("expires_at" ∷ "retrievable" ∷ [])
    else if actor == "system"
    then some ("expires_at" ∷ "tier_actor" ∷ [])
    else none

abbrev pub retrieval_hide_keys : List String
retrieval_hide_keys = "superseded_by" ∷ "contradicts_canonical" ∷ []

abbrev pub metadata_forbidden_keys : List String
metadata_forbidden_keys =
    "retrievable" ∷ "expires_at" ∷ "created_at" ∷ "tier_actor" ∷ "superseded_by"
    ∷ "contradicts_canonical" ∷ "contradiction_checked_at" ∷ "contradicts_canonical_pending"
    ∷ "nli_gate_checked_at" ∷ "superseded_at" ∷ "superseded_via" ∷ "partially_superseded_by" ∷ []

unfoldable pub normalize_label : Option String → String
normalize_label none = ""
normalize_label (some label) = lower (strip label)

unfoldable pub is_privileged_label : Option String → Bool
is_privileged_label label =
    let n = normalize_label label in
    not (is_empty n)
    && (is_some (trusted_patch_keys n)
        || is_some (legacy_patch_keys n)
        || mem n insight_allowed_actors)

-- `hmac.compare_digest` compares in constant time; its answer is equality.
unfoldable pub service_credential_ok : Option String → Option String → Bool
service_credential_ok none presented = false
service_credential_ok (some key) none = false
service_credential_ok (some key) (some presented) =
    let p = strip presented in not (is_empty key) && not (is_empty p) && (p == key)

unfoldable pub require_service_credential :
    Option String → Option String → Option String → Checked Bool
require_service_credential key label presented =
    if not (is_privileged_label label)
    then ok false
    else if service_credential_ok key presented
    then ok true
    else http 403 "service-credential-required"

abbrev pub keys_of : Option (List String) → List String
keys_of none = []
keys_of (some ks) = ks

unfoldable pub is_subset : List String → List String → Bool
is_subset [] allowed = true
is_subset (k ∷ ks) allowed = mem k allowed && is_subset ks allowed

-- The keys of the request that stand in a table.
unfoldable pub hits : List String → List String → List String
hits table keys = filter (λ k. mem k table) keys

abbrev pub is_nil : List String → Bool
is_nil [] = true
is_nil (k ∷ ks) = false

abbrev pub effective_label : Option String → Bool → String
effective_label actor service_verified = if service_verified then normalize_label actor else ""

abbrev pub allowed_keys : String → List String
allowed_keys label = keys_of (legacy_patch_keys label) ++ keys_of (trusted_patch_keys label)

unfoldable pub own_keys_only : Option (List String) → List String → Checked (Unit {0})
own_keys_only none keys = ok tt
own_keys_only (some own) keys = if is_subset keys own then ok tt else http 403 "trusted actor"

-- Key-level authorisation of a metadata patch.
unfoldable pub authorize_metadata_patch :
    Value → Option String → List String → Bool → Checked (Unit {0})
authorize_metadata_patch current_tier actor keys service_verified =
    let label = effective_label actor service_verified in
    if not (is_nil (hits retrieval_hide_keys keys)) && is_text current_tier "canonical"
    then http 403 "metadata keys"
    else if not (is_subset (hits metadata_forbidden_keys keys) (allowed_keys label))
    then http 403 "forbidden metadata keys"
    else own_keys_only (trusted_patch_keys label) keys
