-- ===== src/Sweep/Rules.antt =====
-- The rules of the sweep that read no service: `candidate_skip_reason`, the choice of candidates and
-- `resolve_action`. An instant counts microseconds; the parser of ISO 8601 texts is a parameter.
use agentic_memory_stack_for.Prelude.{
  ℕ, ◌+◌, ◌-◌, ◌*◌, String, Bool, true, false, not, ◌&&◌, ◌||◌, Option, none, some, List, [], ◌∷◌,
  ◌==◌, ltb, leb, eqb, if◌then◌else◌,
}
use agentic_memory_stack_for.Prelude.Text.{strip, lower}
use agentic_memory_stack_for.Payload.{Payload, Value, truthy, field, value_text, is_text, is_false}

pub data Skip : Type 0 where
  canonical_tier retired superseded stamped_recently brand_mismatch checked_recently no_text : Skip

abbrev brand_text : Value → String
brand_text v = lower (strip (value_text v))

unfoldable pub same_brand_scope : Value → Value → Bool
unfolding lower strip value_text
same_brand_scope canonical_brand candidate_brand =
    not (truthy canonical_brand)
    || not (truthy candidate_brand)
    || brand_text canonical_brand == brand_text candidate_brand

abbrev day : ℕ
day = 86400000000

module _ (parse : String → Option ℕ) (now recheck_days recheck_stamped_days : ℕ) where
  abbrev within : ℕ → Option ℕ → Bool
  within days none = false
  within days (some t) = ltb now (t + days * day)

  -- A check that parses and is younger than the days, where there are any.
  unfoldable pub checked_within : ℕ → Payload → Bool
  unfolding field value_text
  checked_within days payload =
      let checked = field "contradiction_checked_at" payload in
      truthy checked && ltb 0 days && within days (parse (value_text checked))

  unfoldable pub candidate_skip_reason : Payload → Payload → Option Skip
  unfolding checked_within same_brand_scope field
  candidate_skip_reason payload canonical_payload =
      let stamped = truthy (field "contradicts_canonical" payload) in
      if is_text (field "tier" payload) "canonical"
      then some canonical_tier
      else if is_false (field "retrievable" payload) || truthy (field "retired_at" payload)
      then some retired
      else if truthy (field "superseded_by" payload)
      then some superseded
      else if stamped && checked_within recheck_stamped_days payload
      then some stamped_recently
      else if not (same_brand_scope (field "brand" canonical_payload) (field "brand" payload))
      then some brand_mismatch
      else if not stamped && checked_within recheck_days payload
      then some checked_recently
      else if not (truthy (field "data" payload) || truthy (field "memory" payload))
      then some no_text
      else none

  abbrev keep : Option Skip → Payload → List Payload → List Payload
  keep none p rest = p ∷ rest
  keep (some s) p rest = rest

  -- The candidates of one canonical, until there are `room` of them. The first turn of the loop
  -- adds its candidate before it looks at the count.
  unfoldable pub eligible : ℕ → Payload → List Payload → List Payload
  eligible room canonical_payload [] = []
  eligible room canonical_payload (p ∷ ps) = elim (candidate_skip_reason p canonical_payload) [
    | none ↦ elim (leb room 1) [
      | true ↦ p ∷ []
      | false ↦ p ∷ eligible (room - 1) canonical_payload ps
    ]
    | some s ↦ elim (eqb room 0) [ true ↦ [] | false ↦ eligible room canonical_payload ps ]
  ]

pub data Action : Type 0 where
  clear promote queue_review keep_stamp skip : Action

unfoldable resolve_action : Option Bool → Bool → Bool → Action
resolve_action none was_pending no_auto_promote = skip
resolve_action (some false) was_pending no_auto_promote = clear
resolve_action (some true) was_pending no_auto_promote =
    if not was_pending then keep_stamp else if no_auto_promote then queue_review else promote
