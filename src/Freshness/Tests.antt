-- ===== src/Freshness/Tests.antt =====
-- Durable freshness at work on scores that are natural numbers, where a weight halves a score once.
use Prim.Native.Nat.{◌/◌}
use agentic_memory_stack_for.Prelude.{
  ℕ, String, ◌≡◌, arith, Bool, true, false, Option, none, some, List, [], ◌∷◌, ltb, leb, map, any,
}
use agentic_memory_stack_for.Payload.{text, scalar, null, field, in_texts}
use mathlib.Core.List.{Perm}
use agentic_memory_stack_for.Freshness.Decay.{
  Floats, Item, durable_decay_tiers, apply_durable_freshness,
}
use agentic_memory_stack_for.Prelude.Sorting.{IsOrder, Descending}
use agentic_memory_stack_for.Freshness.Order.{score, scored, apply_durable_freshness-Descending}

abbrev floats : Floats
floats = record {
  F = ℕ;
  zero = 0;
  one = 1;
  thirty = 30;
  times = λ x y. x / y;
  below = ltb;
  at_most = leb;
  round6 = λ x. x;
  weibull = λ age eta kappa. some 2;
}

floats-IsOrder : IsOrder ltb
floats-IsOrder = record { asym = λ x y h. ground arith; trans = λ x y z h g. ground arith }

abbrev item : String → ℕ → Item floats
item tier score = record {
  metadata = ("tier", text tier) ∷ ("created_at", text "t") ∷ [];
  created_at = scalar null;
  rerank_score = none;
  score = some score;
  durable_freshness_weight = none;
  durable_freshness_score = 0;
}

abbrev items : List (Item floats)
items = item "evidence" 9 ∷ item "stable" 7 ∷ []

abbrev parse : String → Option ℕ
parse s = some 1

abbrev result : Bool × List (Item floats)
result = apply_durable_freshness floats parse 5 30 1 durable_decay_tiers items

apply_durable_freshness-Descending_example :
    Perm result.1 (map (scored floats parse 5 30 1 durable_decay_tiers) items)
    × (result.0 ≡ any (λ r. in_texts (field "tier" r.metadata) durable_decay_tiers) items)
    × (result.0 ≡ true → Descending floats.below (score floats) result.1)
    × (result.0 ≡ false → result.1 ≡ map (scored floats parse 5 30 1 durable_decay_tiers) items)
apply_durable_freshness-Descending_example =
    apply_durable_freshness-Descending floats parse 5 30 1 durable_decay_tiers floats-IsOrder items
