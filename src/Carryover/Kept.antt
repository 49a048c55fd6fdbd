-- ===== src/Carryover/Kept.antt =====
-- A PUT leaves a record as hidden as it was.
use agentic_memory_stack_for.Prelude.{
  ◌==◌, String, ◌≡◌, refl, ◌∙◌, false, Option, none, some, [], ◌∷◌, if◌then◌else◌,
}
use agentic_memory_stack_for.Prelude.Text.{mem}
use agentic_memory_stack_for.Prelude.Dict.{Dict, get, update, without}
use agentic_memory_stack_for.Payload.{Payload, Value, scalar, null, field}
use agentic_memory_stack_for.Payload.Laws.{field-without, field-update_missing}
use agentic_memory_stack_for.Carryover.Keys.{mem0_owned_keys, dropped_keys, compute_carryover}
use agentic_memory_stack_for.Admission.Policy.{
  Floats, Hit, Policy, Clock, evaluate, class_reason, result_brand, tier_reason, stamp_reason,
  scope_reason,
}

field-compute_carryover :
    (k : String) (p : Payload)
    → field k (compute_carryover (some p)) ≡ (if mem k dropped_keys then scalar null else field k p)
unfolding compute_carryover without
field-compute_carryover k [] = field-without k dropped_keys []
field-compute_carryover k (e ∷ es) = field-without k dropped_keys (e ∷ es)

-- The payload that mem0 writes: the carried keys, then its own over them.
module _ (owned : Payload)
    (only_owned : (k : String) → mem k mem0_owned_keys ≡ false → get k owned ≡ none) where
  abbrev pub put_payload : Payload → Payload
  put_payload p = update owned (compute_carryover (some p))

  kept :
      (k : String) (p : Payload)
      → mem k mem0_owned_keys ≡ false
      → mem k dropped_keys ≡ false
      → field k (put_payload p) ≡ field k p
  kept k p o d =
      field-update_missing k owned (compute_carryover (some p)) (only_owned k o)
      ∙ field-compute_carryover k p
      ∙ rw d refl

  -- When mem0 writes its own keys only over the carried ones, a PUT changes no verdict of any
  -- policy on the record, for every class but the operational one, whose recency test reads a key
  -- of mem0's own.
  pub evaluate-put_payload :
      (floats : Floats) (clock : Clock) (policy : Policy floats.F) (r : Hit floats.F)
      (scope : Payload) (qc : String) (tiers : Option (Dict Value))
      → (qc == "operational") ≡ false
      → evaluate floats clock policy (record r { metadata = put_payload r.metadata }) scope qc tiers
        ≡ evaluate floats clock policy r scope qc tiers
  unfolding evaluate tier_reason stamp_reason scope_reason class_reason result_brand mem
  evaluate-put_payload floats clock policy r scope qc tiers e =
      rw
        (
          kept "tier" r.metadata refl refl,
          kept "superseded_by" r.metadata refl refl,
          kept "contradicts_canonical" r.metadata refl refl,
          kept "brand" r.metadata refl refl,
          e,
        )
        refl
