-- ===== src/Admission/Policy.antt =====
-- mem0-server/admission_gate.py: the policy of a query class and its verdict on one result.
-- A float is a value of an abstract ordered type: the gate only compares. An instant is a number of
-- microseconds, and the parser of ISO 8601 texts is a parameter.
use agentic_memory_stack_for.Prelude.{
  ℕ, ◌+◌, ◌*◌, String, Bool, true, false, not, ◌&&◌, Option, none, some, List, [], ◌∷◌, ◌==◌, ltb,
  or_else, if◌then◌else◌,
}
use agentic_memory_stack_for.Prelude.Text.{is_empty, strip, lower, mem}
use agentic_memory_stack_for.Prelude.Dict.{Dict}
use agentic_memory_stack_for.Payload.{
  Payload, Value, scalar, str, bool, truthy, field, value_text, text_or_empty, is_text, in_texts,
}

pub record Floats : Type 1 where
  pub F : Type 0
  pub below : F → F → Bool

-- What `float(v)` makes of a score: there is none, it does not parse, or a value.
pub data Score (F : Type 0) : Type 0 where
  absent : Score F
  unparsed : Score F
  value : F → Score F

pub record Hit (F : Type 0) : Type 0 where
  pub id : Value
  pub metadata : Payload
  pub created_at : Value
  pub cosine : Score F
  pub rerank_score : Score F

pub record Policy (F : Type 0) : Type 0 where
  pub allowed_tiers : List String
  pub max_age_days : Option ℕ
  pub forensic : Bool
  pub relevance_floor : Option F
  pub brand_coherence_floor : Option F
  pub shared_brands : List String

-- What the policies read from the environment.
pub record Settings (F : Type 0) : Type 0 where
  pub relevance : Option F
  pub coherence : Option F
  pub shared : List String

pub record Clock : Type 0 where
  pub now : ℕ
  pub parse : String → Option ℕ

-- The reason of a rejection, without the text that follows its prefix.
pub data Reason : Type 0 where
  tier_disallowed superseded_by contradicts_canonical brand_mismatch : Reason
  brand_scope_required brand_coherence recency relevance_floor : Reason

-- The settings are read as `default_policy_for_class` reads the environment.
unfoldable pub default_policy_for_class : {F : Type 0} → Settings F → String → Policy F
default_policy_for_class s query_class =
    let qc = lower (if is_empty query_class then "durable" else query_class) in
    if qc == "operational"
    then record {
      allowed_tiers = "stable" ∷ "evidence" ∷ "insight" ∷ [];
      max_age_days = some 180;
      forensic = false;
      relevance_floor = s.relevance;
      brand_coherence_floor = s.coherence;
      shared_brands = s.shared;
    }
    else if qc == "canonical"
    then record {
      allowed_tiers = "stable" ∷ "canonical" ∷ [];
      max_age_days = none;
      forensic = false;
      relevance_floor = none;
      brand_coherence_floor = s.coherence;
      shared_brands = s.shared;
    }
    else if qc == "history"
    then record {
      allowed_tiers = "stable" ∷ "evidence" ∷ "insight" ∷ "canonical" ∷ [];
      max_age_days = none;
      forensic = true;
      relevance_floor = none;
      brand_coherence_floor = none;
      shared_brands = s.shared;
    }
    else record {
      allowed_tiers = "stable" ∷ "evidence" ∷ "insight" ∷ [];
      max_age_days = none;
      forensic = false;
      relevance_floor = none;
      brand_coherence_floor = s.coherence;
      shared_brands = s.shared;
    }

-- `req_brand`
unfoldable pub request_brand : Payload → String
request_brand scope = strip (text_or_empty (field "brand" scope))

-- `res_brand`: a shared label is neutral.
unfoldable pub result_brand : List String → Payload → String
result_brand shared meta =
    let b = strip (text_or_empty (field "brand" meta)) in
    if not (is_empty b) && mem (lower b) shared then "" else b

-- Only `True` or a recognised text opts in.
unfoldable pub opts_in : Value → Bool
opts_in (scalar (bool b)) = b
opts_in (scalar (str s)) = mem (lower (strip s)) ("1" ∷ "true" ∷ "yes" ∷ [])
opts_in v = false

-- A stamp hides while its target is canonical; with no resolution it hides.
unfoldable pub stamp_hides : Option (Dict Value) → Value → Bool
stamp_hides none stamp = truthy stamp
stamp_hides (some tiers) stamp =
    truthy stamp && is_text (field (value_text stamp) tiers) "canonical"

-- `meta.get("created_at") or result.get("created_at")`
abbrev pub created : Payload → Value → Value
created meta fallback = let c = field "created_at" meta in if truthy c then c else fallback

abbrev pub day : ℕ
day = 86400000000

module _ (floats : Floats) where
  open floats use {F, below}

  unfoldable pub under : Option F → Score F → Bool
  under none s = false
  under (some floor) absent = false
  under (some floor) unparsed = false
  under (some floor) (value x) = below x floor

  -- A missing or unreadable creation time never rejects.
  unfoldable pub too_old : Clock → Option ℕ → Value → Bool
  too_old clock none c = false
  too_old clock (some days) c =
      if truthy c
      then elim (clock.parse (value_text c)) [
        | none ↦ false
        | some t ↦ ltb (t + day * days) clock.now
      ]
      else false

  unfoldable pub scope_reason : Policy F → Hit F → Payload → Option Reason
  scope_reason p r scope =
      let req = request_brand scope in
      let res = result_brand p.shared_brands r.metadata in
      if not (is_empty req) && not (is_empty res) && not (lower req == lower res)
      then some brand_mismatch
      else if is_empty req && not (is_empty res) && not (opts_in (field "allow_cross_brand" scope))
      then some brand_scope_required
      else if not (is_empty res) && under p.brand_coherence_floor r.cosine
      then some brand_coherence
      else none

  unfoldable pub stamp_reason : Policy F → Payload → Option (Dict Value) → Option Reason
  stamp_reason p meta stamp_tiers =
      if p.forensic
      then none
      else if truthy (field "superseded_by" meta)
      then some superseded_by
      else if stamp_hides stamp_tiers (field "contradicts_canonical" meta)
      then some contradicts_canonical
      else none

  unfoldable pub tier_reason : Policy F → Payload → Option Reason
  tier_reason p meta =
      let tier = field "tier" meta in
      if truthy tier && not (in_texts tier p.allowed_tiers) then some tier_disallowed else none

  unfoldable pub class_reason : Clock → Policy F → Hit F → String → Option Reason
  class_reason clock p r query_class =
      if query_class == "operational"
      then (if too_old clock p.max_age_days (created r.metadata r.created_at)
          then some recency
          else if under p.relevance_floor r.rerank_score
          then some relevance_floor
          else none)
      else none

  -- The first test that rejects decides; `none` admits.
  unfoldable pub evaluate :
      Clock → Policy F → Hit F → Payload → String → Option (Dict Value) → Option Reason
  evaluate clock p r scope query_class stamp_tiers = or_else (tier_reason p r.metadata) (
      or_else (stamp_reason p r.metadata stamp_tiers)
        (or_else (scope_reason p r scope) (class_reason clock p r query_class)))
