-- ===== src/Carryover/Tests.antt =====
-- A PUT of a superseded, branded record.
use agentic_memory_stack_for.Prelude.{
  ℕ, String, ◌≡◌, refl, arith, eq_iff, false, none, [], ◌∷◌, ltb,
}
use agentic_memory_stack_for.Prelude.Text.{mem}
use agentic_memory_stack_for.Prelude.Dict.{get}
use agentic_memory_stack_for.Payload.{Payload, text, scalar, null}
use agentic_memory_stack_for.Admission.Policy.{
  Floats, absent, Hit, Policy, Clock, default_policy_for_class, evaluate,
}
use agentic_memory_stack_for.Carryover.Keys.{mem0_owned_keys}
use agentic_memory_stack_for.Carryover.Kept.{put_payload, evaluate-put_payload}

abbrev floats : Floats
floats = record { F = ℕ; below = ltb }

abbrev owned : Payload
owned = ("data", text "new") ∷ ("hash", text "h") ∷ []

only_owned : (k : String) → mem k mem0_owned_keys ≡ false → get k owned ≡ none
unfolding mem get
only_owned k h = ground (arith, eq_iff k "data", eq_iff k "hash", eq_iff "data" k, eq_iff "hash" k)

abbrev hit : Hit ℕ
hit = record {
  id = text "1";
  metadata =
      ("data", text "old")
      ∷ ("tier", text "stable")
      ∷ ("superseded_by", text "2")
      ∷ ("nli_gate_checked_at", text "t")
      ∷ [];
  created_at = scalar null;
  cosine = absent;
  rerank_score = absent;
}

abbrev clock : Clock
clock = record { now = 1000; parse = λ s. none }

abbrev policy : Policy ℕ
policy =
    default_policy_for_class (record { relevance = none; coherence = none; shared = [] }) "durable"

evaluate-put_payload_example :
    evaluate floats clock policy
      (record hit { metadata = put_payload owned only_owned hit.metadata })
      []
      "durable"
      none
    ≡ evaluate floats clock policy hit [] "durable" none
evaluate-put_payload_example =
    evaluate-put_payload owned only_owned floats clock policy hit [] "durable" none refl
