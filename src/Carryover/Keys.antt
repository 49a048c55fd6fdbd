-- ===== src/Carryover/Keys.antt =====
-- mem0-server/payload_carryover.py: `compute_carryover`, and the payload that the update leaves, whose
-- own keys mem0 writes last.
use agentic_memory_stack_for.Prelude.{String, List, [], ◌∷◌, ◌++◌, Option, none, some}
use agentic_memory_stack_for.Prelude.Dict.{without}
use agentic_memory_stack_for.Payload.{Payload}

abbrev pub mem0_owned_keys : List String
mem0_owned_keys =
    "data" ∷ "hash" ∷ "text_lemmatized" ∷ "created_at" ∷ "updated_at" ∷ "user_id" ∷ "agent_id"
    ∷ "run_id" ∷ "actor_id" ∷ "role" ∷ []

abbrev pub nli_check_markers : List String
nli_check_markers =
    "nli_gate_checked_at" ∷ "contradiction_checked_at" ∷ "contradicts_canonical_pending" ∷ []

abbrev pub dropped_keys : List String
dropped_keys = mem0_owned_keys ++ nli_check_markers

-- `None` and the empty payload carry nothing.
unfoldable pub compute_carryover : Option Payload → Payload
compute_carryover none = []
compute_carryover (some []) = []
compute_carryover (some (e ∷ es)) = without dropped_keys (e ∷ es)
