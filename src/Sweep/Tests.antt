-- ===== src/Sweep/Tests.antt =====
-- Three canonicals, two a week, of which the first run counts one: the three runs that it promises reach them all.
use agentic_memory_stack_for.Prelude.{
  String, filter, ◌≡◌, refl, arith, Bool-cases, true, inl, inr, ◌≢◌, if◌then◌else◌, ◌==◌, none,
  some, List, [], ◌∷◌, take,
}
use agentic_memory_stack_for.Prelude.Text.{
  is_space, space_code, lower, strip, lower_char, translate,
}
use agentic_memory_stack_for.Payload.{Payload, text, field, value_text}
use agentic_memory_stack_for.Sweep.Rules.{eligible}
use agentic_memory_stack_for.Sweep.Candidates.{is_judgeable, eligible_lem}
use agentic_memory_stack_for.Sweep.Rotation.{
  Canonical, Visit, unsweepable, query_failed, aborted, swept, Service, sweep_run, sweep_runs,
  weeks_for_full_pass, before,
}
use agentic_memory_stack_for.Sweep.FullPass.{IsServed, count_stale, sweep_runs-full_pass}

abbrev canonicals : List Canonical
canonicals =
    record { id = "c"; contradiction_checked_at = some 3 }
    ∷ record { id = "a"; contradiction_checked_at = none }
    ∷ record { id = "b"; contradiction_checked_at = some 1 }
    ∷ []

-- One canonical has no vector.
abbrev service : Service
service = record { visit = λ c. if c.id == "a" then unsweepable else swept; takes = λ c. true }

service-IsServed : IsServed service
service-IsServed c = let v = never c.id in (refl, v.0, v.1)
  where
    never :
        (id : String)
        → let v : Visit = if id == "a" then unsweepable else swept in
          (v ≢ query_failed) × (v ≢ aborted)
    never id = elim (Bool-cases (id == "a")) [
      | inl e ↦ rw e ((λ h. cc), (λ h. cc))
      | inr e ↦ rw e ((λ h. cc), (λ h. cc))
    ]

three_weeks : weeks_for_full_pass 3 (sweep_run service 2 10 canonicals).0 ≡ some 3
unfolding weeks_for_full_pass sweep_run before
three_weeks = refl

sweep_runs-full_pass_example :
    count_stale 10 (sweep_runs service 2 (10 ∷ 17 ∷ 24 ∷ []) canonicals) ≡ 0
sweep_runs-full_pass_example =
    sweep_runs-full_pass service service-IsServed 10 1 10 (10 ∷ 17 ∷ 24 ∷ []) canonicals 3
      (omega arith) three_weeks (omega arith)

-- The canonical that was never checked comes first, then the one that was checked longest ago.
one_run :
    (sweep_run service 2 10 canonicals).1
    ≡ record { id = "a"; contradiction_checked_at = some 10 }
      ∷ record { id = "b"; contradiction_checked_at = some 10 }
      ∷ record { id = "c"; contradiction_checked_at = some 3 }
      ∷ []
unfolding sweep_run before
one_run = refl

abbrev fact : String → String → Payload
fact brand body = ("tier", text "evidence") ∷ ("brand", text brand) ∷ ("data", text body) ∷ []

abbrev shop : Payload
shop = ("tier", text "canonical") ∷ ("brand", text "Shop") ∷ []

abbrev points : List Payload
points = fact "bank" "a" ∷ fact " shop" "b" ∷ shop ∷ fact "" "c" ∷ fact "shop" "d" ∷ []

eligible_lem_example :
    eligible (λ s. none) 10 7 30 2 shop points
    ≡ take 2 (filter (is_judgeable (λ s. none) 10 7 30 shop) points)
eligible_lem_example = eligible_lem (λ s. none) 10 7 30 2 shop points (omega arith)

-- Another brand is passed over, no brand is in every scope, and the fourth is over the count.
two_candidates :
    take 2 (filter (is_judgeable (λ s. none) 10 7 30 shop) points)
    ≡ fact " shop" "b" ∷ fact "" "c" ∷ []
unfolding filter is_judgeable field is_space space_code lower_char translate lower strip value_text
two_candidates = refl
