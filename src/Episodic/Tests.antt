-- ===== src/Episodic/Tests.antt =====
-- The ledger at work: a session's first prompt, its second, and the Stop hook, and a summary that is cut.
use agentic_memory_stack_for.Prelude.Codes.{codes}
use agentic_memory_stack_for.Prelude.{
  ℕ, ◌≡◌, refl, arith, not, Option, none, some, List, [], ◌∷◌, ◌++◌, filter, length,
}
use agentic_memory_stack_for.Episodic.Words.{Words}
use agentic_memory_stack_for.Episodic.Summary.{
  append_running_summary, segments, joined, is_gap, head_of, tail_of,
}
use agentic_memory_stack_for.Episodic.Newest.{IsNewest, append_running_summary-IsNewest}
use agentic_memory_stack_for.Episodic.Store.{
  Store, Episode, About, upsert_in_progress_episode, finalize_episode,
}
use agentic_memory_stack_for.Episodic.Steps.{
  Between, Run, stop, step, checkpointed, finalized, empty,
}
use agentic_memory_stack_for.Episodic.Ledger.{run-IsLedger}
use agentic_memory_stack_for.Episodic.Rows.{IsLedger}
use agentic_memory_stack_for.Episodic.Finalize.{FinalOrUnknown, finalize_episode-IsFinal}

abbrev about : About
about = record { transcript_path = none; brand = none; workspace = none; project = none }

abbrev between : Between
between a b = some 0

abbrev first : Store
first = (upsert_in_progress_episode "t1" "s1" about (some (codes "fix the port")) empty).0

abbrev second : Store
second =
    (upsert_in_progress_episode "t2" "s1" about (some (codes "<task-notification> done")) first).0

abbrev left : Option (Store × ℕ) → Store
left none = empty
left (some r) = r.0

abbrev third : Store
third = left (finalize_episode between "s1" (codes "port") (codes "fixed") "t3" 2 second)

third_ran :
    finalize_episode between "s1" (codes "port") (codes "fixed") "t3" 2 second ≡ some (third, 1)
unfolding finalize_episode upsert_in_progress_episode append_running_summary
third_ran = refl

abbrev steps_two : Run between empty second
steps_two =
    step empty first second
      (step empty empty first (stop empty)
        (checkpointed empty "t1" "s1" about (some (codes "fix the port"))))
      (checkpointed first "t2" "s1" about (some (codes "<task-notification> done")))

abbrev steps : Run between empty third
steps =
    step empty second third steps_two
      (finalized second third "s1" (codes "port") (codes "fixed") "t3" 2 1 third_ran)

run-IsLedger_example : IsLedger third
run-IsLedger_example = run-IsLedger between steps

finalize_episode-IsFinal_example :
    FinalOrUnknown "s1"
      (codes "port")
      (codes "fixed")
      "t3"
      second
      (finalize_episode between "s1" (codes "port") (codes "fixed") "t3" 2 second)
finalize_episode-IsFinal_example =
    finalize_episode-IsFinal between second "s1" (codes "port") (codes "fixed") "t3" 2
      (run-IsLedger between steps_two)

abbrev summaries : List Episode → List (Option Words)
summaries [] = []
summaries (e ∷ es) = e.summary_text ∷ summaries es

-- The notification adds no text.
second_summary : summaries second.episodes ≡ some (codes "fix the port") ∷ []
unfolding upsert_in_progress_episode append_running_summary
second_summary = refl

abbrev old : Option Words
old = some (codes "ask | two | three")

-- Under a cap of 16 the newest segment stays behind the first, and the two between are dropped.
cut :
    append_running_summary old (some (codes "four")) 16
    ≡ codes "ask | " ++ (0x2026 ∷ codes " | four")
unfolding append_running_summary
cut = refl

-- The segments behind the first.
behind :
    filter
      (λ s. not (is_gap s))
      (tail_of (segments (joined (codes "ask | two | three") (codes "four"))))
    ≡ codes "two" ∷ codes "three" ∷ codes "four" ∷ []
unfolding segments filter
behind = refl

first_three : length (head_of (segments (joined (codes "ask | two | three") (codes "four")))) ≡ 3
unfolding segments
first_three = refl

append_running_summary-IsNewest_example :
    IsNewest 16
      (head_of (segments (joined (codes "ask | two | three") (codes "four"))))
      (codes "two" ∷ codes "three" ∷ codes "four" ∷ [])
      (append_running_summary old (some (codes "four")) 16)
append_running_summary-IsNewest_example =
    append_running_summary-IsNewest old 102 (codes "our") (codes "two")
      (codes "three" ∷ codes "four" ∷ []) 16 (omega arith) (omega (arith, first_three)) behind
