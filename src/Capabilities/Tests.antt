-- ===== src/Capabilities/Tests.antt =====
-- The manifest on a box without checks, and two rows of it on a box whose store is down.
use agentic_memory_stack_for.Prelude.{String, ◌≡◌, ◌≢◌, refl, false, none, some, List, [], ◌∷◌}
use agentic_memory_stack_for.Prelude.Text.{
  lower, strip, is_space, space_code, lower_char, translate,
}
use agentic_memory_stack_for.Prelude.Dict.{get}
use agentic_memory_stack_for.Capabilities.Checks.{Checks, no_checks}
use agentic_memory_stack_for.Capabilities.States.{alive, ok_state}
use agentic_memory_stack_for.Capabilities.Select.{World, state_for, probed_state}
use agentic_memory_stack_for.Capabilities.Manifest.{
  Row, row, capabilities, required_applies, known_role, evaluate,
}
use agentic_memory_stack_for.Capabilities.Verdict.{
  without_provider, evaluate_silent, evaluate-convicts_none,
}

abbrev box : World
box = without_provider (some "1.35.0") (some 100)

-- The store is down on a brain.
abbrev checks : Checks
checks = record no_checks { qdrant = some false; service_key = some false }

-- Two rows of the manifest.
abbrev two_rows : List Row
two_rows =
    row "qdrant-store" "checks.qdrant (collection status + point count)" "both"
    ∷ row "service-key" "checks.service_key" "brain"
    ∷ []

evaluate-convicts_none_example :
    (evaluate box no_checks (some "brain") capabilities).dead_required ≡ []
evaluate-convicts_none_example =
    evaluate-convicts_none (some "1.35.0") (some 100) (some "brain") capabilities

qdrant-ne : ◌≢◌ {A = String} "qdrant-store" "mem0-api"
qdrant-ne h = cc

evaluate_silent_example :
    get "qdrant-store" (evaluate box no_checks none capabilities).states ≢ some alive
evaluate_silent_example =
    evaluate_silent (some "1.35.0") (some 100) "qdrant-store" none capabilities qdrant-ne

-- A brain convicts both rows, an unknown box only the one that every box requires.
dead_on_brain :
    (evaluate box checks (some "brain") two_rows).dead_required
    ≡ "qdrant-store" ∷ "service-key" ∷ []
unfolding evaluate state_for probed_state get ok_state known_role required_applies lower strip
    is_space space_code lower_char translate
dead_on_brain = refl

dead_on_unknown : (evaluate box checks none two_rows).dead_required ≡ "qdrant-store" ∷ []
unfolding evaluate state_for probed_state get ok_state known_role required_applies lower strip
    is_space space_code lower_char translate
dead_on_unknown = refl
