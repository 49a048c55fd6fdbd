-- ===== src/Supersession/Tests.antt =====
-- The supersession theorems at work on a store of three records.
use agentic_memory_stack_for.Prelude.{
  String, ◌≡◌, ◌≢◌, ◌⊎◌, ◌↔◌, refl, Bool, true, false, Option, none, some, [], ◌∷◌, any,
}
use agentic_memory_stack_for.Prelude.Text.{
  space_code, is_space, lstrip, rstrip, strip, translate, lower_char, lower, mem,
}
use agentic_memory_stack_for.Prelude.Dict.{get, put, update, without}
use agentic_memory_stack_for.Payload.{Payload, scalar, null, text, field, text_or_empty, value_text}
use agentic_memory_stack_for.Supersession.Ids.{is_memory_id, norm_id, clean_source}
use agentic_memory_stack_for.Supersession.Rules.{
  full_keys, precheck, request_refusal, record_refusal, state_refusal, scope_refusal,
  existing_refusal, too_long, is_blank, retired, brand, same_user, is_noop, full_payload, stripped,
  is_set, has_supersession, clear_keys, clear_precheck, is_protected, tier,
}
use agentic_memory_stack_for.Supersession.Store.{change, memory_store}
use agentic_memory_stack_for.Supersession.Transaction.{
  commit, commit_write, decide, on_reads, stripped_or_none, supersede_line, unless_noop,
  write_supersede, read_id, Line, Body, World, Outcome, done, done_body, as_intent,
  supersede_payload, run_supersede, run_unsupersede, on_read, clear, clear_if_set,
  write_unsupersede, stamp_cleared, cleared_fields, unsupersede_line, unsupersede_body,
}
use agentic_memory_stack_for.Supersession.Matrix.{IsAdmissible, precheck-none_iff}
use agentic_memory_stack_for.Supersession.Audit.{IsAudited, run_supersede-IsAudited}
use agentic_memory_stack_for.Supersession.Protect.{door-protected}
use agentic_memory_stack_for.Supersession.Effect.{written_keys}
use agentic_memory_stack_for.Supersession.Frame.{IsFramed, supersede-IsFramed}
use agentic_memory_stack_for.Supersession.Repeat.{supersede_repeat}
use agentic_memory_stack_for.Supersession.Undo.{unsupersede-supersede}

abbrev loser_id : String
loser_id = "11111111-aaaa-4bbb-8ccc-222222222222"

abbrev winner_id : String
winner_id = "33333333-AAAA-4bbb-8ccc-444444444444"

abbrev loser : Payload
loser = ("tier", text "evidence") ∷ ("user_id", text "u") ∷ ("data", text "old") ∷ []

abbrev winner : Payload
winner = ("tier", text "canonical") ∷ ("user_id", text "u") ∷ ("data", text "new") ∷ []

abbrev accepts : Line → Bool
accepts line = true

abbrev before : World memory_store accepts
before = record {
  store = (loser_id, loser) ∷ ("33333333-aaaa-4bbb-8ccc-444444444444", winner) ∷ [];
  ledger = [];
}

abbrev run : World memory_store accepts → Outcome × World memory_store accepts
run w =
    run_supersede memory_store accepts loser_id winner_id "full" none (some "stale") none [] "t1" w

abbrev body : Body
body =
    done_body memory_store accepts loser_id winner_id "full" none (some "stale") none [] "t1" loser

abbrev after : World memory_store accepts
after = (run before).1

ran : run before ≡ (done body, after)
unfolding run_supersede on_reads decide unless_noop write_supersede commit commit_write read_id
    is_memory_id norm_id precheck request_refusal record_refusal state_refusal scope_refusal
    existing_refusal too_long is_blank retired brand same_user is_noop full_payload stripped
    stripped_or_none supersede_line supersede_payload as_intent strip lstrip rstrip is_space
    space_code lower lower_char translate mem get put update change field text_or_empty value_text
    clean_source any
ran = refl

run_supersede-IsAudited_example :
    (after ≡ before)
    ⊎ ((l : Payload) × (v : Option Payload) × IsAudited memory_store accepts loser_id winner_id
          "full" none
          (some "stale")
          none
          []
          "t1"
          before
          after
          l
          v)
run_supersede-IsAudited_example =
    run_supersede-IsAudited memory_store accepts loser_id winner_id "full" none (some "stale") none
      [] "t1" before

precheck-none_iff_example :
    (precheck loser_id winner_id (some loser) (some winner) "full" none [] (some "stale") ≡ none)
    ↔ IsAdmissible loser_id winner_id loser winner "full" none [] (some "stale")
precheck-none_iff_example =
    precheck-none_iff loser_id winner_id loser winner "full" none [] (some "stale")

stored : memory_store.read (norm_id winner_id) before.store ≡ some (some winner)
unfolding norm_id lower lower_char translate strip lstrip rstrip is_space space_code get
stored = refl

guarded : is_protected (tier winner) ≡ true
unfolding is_protected field get mem
guarded = refl

-- The request names the canonical record as the loser.
door-protected_example :
    ((run_supersede memory_store accepts winner_id loser_id "full" none none none [] "t1" before).1
      ≡ before)
    × ((run_unsupersede memory_store accepts winner_id "full" none "t1" before).1 ≡ before)
door-protected_example =
    door-protected memory_store accepts winner_id loser_id "full" none none none [] "t1" before
      winner stored guarded

supersede-IsFramed_example :
    (l : Payload) × (a : Payload) × IsFramed memory_store accepts loser_id winner_id "full" none
      (some "stale")
      none
      []
      "t1"
      before
      after
      l
      a
supersede-IsFramed_example =
    supersede-IsFramed memory_store accepts loser_id winner_id "full" none (some "stale") none []
      "t1" body before after ran refl

supersede_repeat_example :
    (again : Body) × (again.noop ≡ true)
    × (run_supersede memory_store accepts loser_id winner_id "full" none
          (some "stale")
          none
          []
          "t9"
          after
        ≡ (done again, after))
supersede_repeat_example =
    supersede_repeat memory_store accepts loser_id winner_id "full" none (some "stale") none [] "t1"
      "t9" body before after ran refl

abbrev clear_run : World memory_store accepts → Outcome × World memory_store accepts
clear_run w = run_unsupersede memory_store accepts loser_id "full" (some "wrong") "t2" w

abbrev cleared : World memory_store accepts
cleared = (clear_run after).1

abbrev clear_body : Body
clear_body = unsupersede_body memory_store accepts loser_id "full" (some "wrong") "t2" false (
    some (
      unsupersede_line loser_id "full" (some "wrong") full_keys
        (update (supersede_payload loser winner_id "full" none "t1") loser)))

clear_ran : clear_run after ≡ (done clear_body, cleared)
unfolding run_supersede on_reads decide unless_noop write_supersede commit commit_write read_id
    is_memory_id norm_id precheck request_refusal record_refusal state_refusal scope_refusal
    existing_refusal too_long is_blank retired brand same_user is_noop full_payload stripped
    stripped_or_none supersede_line supersede_payload as_intent strip lstrip rstrip is_space
    space_code lower lower_char translate mem get put update without change field text_or_empty
    value_text clean_source any run_unsupersede on_read clear clear_if_set write_unsupersede
    stamp_cleared clear_precheck clear_keys has_supersession is_set is_protected unsupersede_line
    cleared_fields
clear_ran = refl

unsupersede-supersede_example :
    (l : Payload) × (a : Payload) × (memory_store.read (norm_id loser_id) before.store
      ≡ some (some l))
    × (memory_store.read (norm_id loser_id) cleared.store ≡ some (some a))
    × ((k : String) → mem k full_keys ≡ true → field k a ≡ scalar null)
    × ((k : String) → mem k (written_keys "full") ≡ false → field k a ≡ field k l)
    × ((j : String)
        → norm_id loser_id ≢ j
        → memory_store.read j cleared.store ≡ memory_store.read j before.store)
unsupersede-supersede_example =
    unsupersede-supersede memory_store accepts loser_id winner_id none (some "stale") none [] "t1"
      (some "wrong") "t2" body clear_body before after cleared ran refl clear_ran refl

loser_read : read_id memory_store accepts loser_id before ≡ some (some loser)
unfolding read_id is_memory_id norm_id lower lower_char translate strip lstrip rstrip is_space
    space_code get
loser_read = refl

winner_read : read_id memory_store accepts winner_id before ≡ some (some winner)
unfolding read_id is_memory_id norm_id lower lower_char translate strip lstrip rstrip is_space
    space_code get
winner_read = refl

passes : precheck loser_id winner_id (some loser) (some winner) "full" none [] (some "stale") ≡ none
unfolding is_memory_id norm_id precheck request_refusal record_refusal state_refusal scope_refusal
    existing_refusal too_long is_blank retired brand same_user strip lstrip rstrip is_space
    space_code lower lower_char translate mem get field text_or_empty value_text
passes = refl

admissible : IsAdmissible loser_id winner_id loser winner "full" none [] (some "stale")
admissible =
    (precheck-none_iff loser_id winner_id loser winner "full" none [] (some "stale")).0 passes

not_repeated : is_noop loser winner_id "full" none ≡ false
unfolding is_noop norm_id strip lstrip rstrip is_space space_code lower lower_char translate get
    field text_or_empty
not_repeated = refl
