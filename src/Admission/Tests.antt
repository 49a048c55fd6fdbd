-- ===== src/Admission/Tests.antt =====
-- The admission theorems at work on one search of three results, and on one supersession.
use mathlib.Core.Bool.{false≢true}
use agentic_memory_stack_for.Prelude.{
  ap, ◌==◌, ℕ, ◌+◌, String, ◌≡◌, ◌≢◌, refl, Bool, true, Option, none, some, List, [], ◌∷◌, ltb,
  filter, length, All, any,
}
use agentic_memory_stack_for.Prelude.Text.{
  space_code, is_space, lstrip, rstrip, strip, translate, lower_char, lower, mem,
}
use agentic_memory_stack_for.Prelude.Dict.{Dict, get, put, update}
use agentic_memory_stack_for.Payload.{
  Payload, Value, scalar, null, text, field, text_or_empty, value_text,
}
use agentic_memory_stack_for.Supersession.Ids.{norm_id, is_memory_id, clean_source}
use agentic_memory_stack_for.Supersession.Rules.{
  precheck, request_refusal, record_refusal, state_refusal, scope_refusal, existing_refusal,
  too_long, is_blank, retired, brand, same_user, is_noop, full_payload, stripped,
}
use agentic_memory_stack_for.Supersession.Store.{change, memory_store}
use agentic_memory_stack_for.Supersession.Transaction.{
  Line, Body, World, Outcome, done, done_body, run_supersede, on_reads, decide, unless_noop,
  write_supersede, commit, commit_write, read_id, stripped_or_none, supersede_line,
  supersede_payload, as_intent,
}
use agentic_memory_stack_for.Admission.Policy.{
  Floats, absent, value, Hit, Policy, Settings, Clock, default_policy_for_class, evaluate,
}
use agentic_memory_stack_for.Admission.Apply.{
  Stamps, Fetcher, Gate, normal_class, targets, resolve, apply_admission,
}
use agentic_memory_stack_for.Admission.Isolation.{IsReachable, apply_admission-IsReachable}
use agentic_memory_stack_for.Admission.Hidden.{
  IsCurrent, class_of, apply_admission-IsCurrent, superseded_hidden,
}
use agentic_memory_stack_for.Admission.Counting.{
  admits, append_lines, rejected, apply_admission_accounts,
}

abbrev floats : Floats
floats = record { F = ℕ; below = ltb }

abbrev settings : Settings ℕ
settings = record { relevance = some 5; coherence = some 3; shared = "main" ∷ [] }

abbrev clock : Clock
clock = record { now = 1000; parse = λ s. none }

abbrev fetcher : Fetcher
fetcher = some (λ ids. some (("c", text "canonical") ∷ []))

abbrev hit : String → Payload → Hit ℕ
hit id metadata = record {
  id = text id;
  metadata = metadata;
  created_at = scalar null;
  cosine = value 7;
  rerank_score = absent;
}

abbrev results : List (Hit ℕ)
results =
    hit "1" (("tier", text "stable") ∷ ("brand", text "acme") ∷ [])
    ∷ hit "2" (("tier", text "stable") ∷ ("brand", text "other") ∷ [])
    ∷ hit "3" (("tier", text "evidence") ∷ ("contradicts_canonical", text "c") ∷ [])
    ∷ []

abbrev scope : Payload
scope = ("brand", text "acme") ∷ []

abbrev gate : Gate floats
gate = record {
  rejections = record { date = some "d"; total = 4; reasons = [] };
  stamps = record { date = none; unresolved = 0; ignored = 0 };
  cache = [];
  stats_out = [];
  log = [];
  log_takes = λ log line. true;
}

abbrev search : List (Hit ℕ) × Gate floats
search = apply_admission floats settings clock fetcher 10 "d" results scope "durable" gate

durable-ne : normal_class floats "durable" ≢ "history"
unfolding normal_class strip lstrip rstrip is_space space_code lower lower_char translate
durable-ne = λ h. false≢true (ap (λ s. s == "history") h)

apply_admission-IsReachable_example : All (λ r. IsReachable ("main" ∷ []) scope r.metadata) search.0
apply_admission-IsReachable_example =
    apply_admission-IsReachable floats settings clock fetcher 10 "d" results scope "durable" gate

abbrev policy : Policy ℕ
policy = default_policy_for_class settings (normal_class floats "durable")

apply_admission-IsCurrent_example :
    All (IsCurrent floats fetcher 10 [] (targets floats results)) search.0
apply_admission-IsCurrent_example =
    apply_admission-IsCurrent floats settings clock fetcher 10 "d" results scope "durable" gate
      durable-ne

apply_admission_accounts_example :
    (search.0
      ≡ filter
          (admits floats clock "d" policy scope
            (normal_class floats "durable")
            (resolve floats fetcher 10 policy results []).0)
          results)
    × (search.1.log
        ≡ append_lines floats clock "d" gate.log_takes [] (
            rejected floats clock "d" policy scope
              (normal_class floats "durable")
              (resolve floats fetcher 10 policy results []).0
              results))
    × (search.1.rejections.total
        ≡ 4
          + length (
              rejected floats clock "d" policy scope
                (normal_class floats "durable")
                (resolve floats fetcher 10 policy results []).0
                results))
apply_admission_accounts_example =
    apply_admission_accounts floats clock "d" settings fetcher 10 results scope "durable" gate refl

abbrev loser_id : String
loser_id = "11111111-aaaa-4bbb-8ccc-222222222222"

abbrev winner_id : String
winner_id = "33333333-aaaa-4bbb-8ccc-444444444444"

abbrev loser : Payload
loser = ("tier", text "evidence") ∷ ("user_id", text "u") ∷ ("data", text "old") ∷ []

abbrev accepts : Line → Bool
accepts line = true

abbrev before : World memory_store accepts
before = record {
  store =
      (loser_id, loser) ∷ (winner_id, ("tier", text "stable") ∷ ("user_id", text "u") ∷ []) ∷ [];
  ledger = [];
}

abbrev run : Outcome × World memory_store accepts
run = run_supersede memory_store accepts loser_id winner_id "full" none none none [] "t1" before

abbrev body : Body
body = done_body memory_store accepts loser_id winner_id "full" none none none [] "t1" loser

ran : run ≡ (done body, run.1)
unfolding run_supersede on_reads decide unless_noop write_supersede commit commit_write read_id
    is_memory_id norm_id precheck request_refusal record_refusal state_refusal scope_refusal
    existing_refusal too_long is_blank retired brand same_user is_noop full_payload stripped
    stripped_or_none supersede_line supersede_payload as_intent strip lstrip rstrip is_space
    space_code lower lower_char translate mem get put update change field text_or_empty value_text
    clean_source any
ran = refl

superseded_hidden_example :
    (after : Payload) × (memory_store.read (norm_id loser_id) run.1.store ≡ some (some after))
    × ((s : Settings ℕ) (c : Clock) (r : Hit ℕ) (asked : Payload) (qc : String)
          (tiers : Option (Dict Value))
        → class_of qc ≢ "history"
        → field "superseded_by" r.metadata ≡ field "superseded_by" after
        → evaluate floats c (default_policy_for_class s qc) r asked qc tiers ≢ none)
superseded_hidden_example =
    superseded_hidden floats memory_store accepts loser_id winner_id none none none [] "t1" body
      before run.1 ran refl

abbrev stamps : Stamps
stamps = record { date = none; unresolved = 0; ignored = 0 }
