-- ===== src/Episodic/Turn.antt =====
-- mem0-server/hook_contract.py: who wrote a prompt.
use agentic_memory_stack_for.Prelude.Codes.{codes, same}
use agentic_memory_stack_for.Prelude.{
  ℕ, Bool, false, ◌&&◌, ◌||◌, Option, none, some, List, [], ◌∷◌, leb, eqb,
}
use agentic_memory_stack_for.Episodic.Words.{Words, lstrip, starts_with}

abbrev machine_turn_marker : Words
machine_turn_marker = codes "<task-notification>"

-- Space, tab, carriage return, line feed, form feed and vertical tab.
abbrev leading_ws : List ℕ
leading_ws = 32 ∷ 9 ∷ 13 ∷ 10 ∷ 12 ∷ 11 ∷ []

abbrev relayed_message_announcement : Words
relayed_message_announcement = codes "Another Claude session sent a message:"

abbrev relayed_message_wrapper_open : Words
relayed_message_wrapper_open = codes "<cross-session-message"

unfoldable is_machine_turn_prompt : Words → Bool
unfolding lstrip
is_machine_turn_prompt prompt = starts_with (lstrip leading_ws prompt) machine_turn_marker

-- `_DOTNET_WHITESPACE` or `>`
unfoldable ends_wrapper : ℕ → Bool
ends_wrapper c =
    (leb 9 c && leb c 13)
    || eqb c 0x85
    || eqb c 0x20
    || eqb c 0xa0
    || eqb c 0x1680
    || (leb 0x2000 c && leb c 0x200a)
    || eqb c 0x2028
    || eqb c 0x2029
    || eqb c 0x202f
    || eqb c 0x205f
    || eqb c 0x3000
    || eqb c 62

abbrev first_ends : Words → Bool
first_ends [] = false
first_ends (c ∷ cs) = ends_wrapper c

abbrev after : Words → Words → Words
after [] text = text
after (p ∷ ps) [] = []
after (p ∷ ps) (c ∷ cs) = after ps cs

-- `_RELAYED_WRAPPER.match`
unfoldable wrapper_match : Words → Bool
unfolding ends_wrapper
wrapper_match text =
    starts_with text relayed_message_wrapper_open
    && first_ends (after relayed_message_wrapper_open text)

-- `_RELAYED_WRAPPER.search`
unfoldable wrapper_search : Words → Bool
unfolding wrapper_match
wrapper_search [] = false
wrapper_search (c ∷ cs) = wrapper_match (c ∷ cs) || wrapper_search cs

unfoldable is_relayed_agent_message : Words → Bool
unfolding wrapper_match wrapper_search lstrip
is_relayed_agent_message prompt =
    let t = lstrip leading_ws prompt in
    wrapper_match t || (starts_with t relayed_message_announcement && wrapper_search t)

-- None and the empty text read as a person's.
unfoldable pub is_non_human_turn : Option Words → Bool
unfolding is_machine_turn_prompt is_relayed_agent_message
is_non_human_turn none = false
is_non_human_turn (some p) = is_machine_turn_prompt p || is_relayed_agent_message p

-- A stored preview, which is cut.
unfoldable pub is_non_human_preview : Words → Bool
unfolding wrapper_match lstrip
is_non_human_preview preview =
    let t = lstrip leading_ws preview in
    starts_with t machine_turn_marker
    || starts_with t relayed_message_announcement
    || (starts_with t relayed_message_wrapper_open
        && (same t relayed_message_wrapper_open || wrapper_match t))
