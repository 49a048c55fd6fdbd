-- ===== src/Freshness/Decay.antt =====
-- mem0-server/freshness.py: `freshness_weight` and `apply_durable_freshness`. A float is a value of an
-- abstract type with the operations that the code uses; an age counts microseconds.
use agentic_memory_stack_for.Prelude.{
  ℕ, ◌-◌, String, Bool, Option, none, some, List, [], ◌∷◌, eqb, if◌then◌else◌, any, map, or_else,
}
use agentic_memory_stack_for.Prelude.Sorting.{sort_by}
use agentic_memory_stack_for.Payload.{Payload, Value, truthy, field, value_text, in_texts}

pub record Floats : Type 1 where
  pub F : Type 0
  pub zero : F
  pub one : F
  pub thirty : F
  pub times : F → F → F
  pub below : F → F → Bool
  pub at_most : F → F → Bool
  pub round6 : F → F
  -- `exp(-ln2 * (age / eta) ** kappa)`, `none` on an overflow or a domain error
  pub weibull : ℕ → F → F → Option F

abbrev pub durable_decay_tiers : List String
durable_decay_tiers = "evidence" ∷ []

module _ (floats : Floats) where
  open floats use {F, one, thirty, times, below, round6, weibull}

  pub record Item : Type 0 where
    pub metadata : Payload
    pub created_at : Value
    pub rerank_score : Option F
    pub score : Option F
    pub durable_freshness_weight : Option F
    pub durable_freshness_score : F

  abbrev pub default_to : F → Option F → F
  default_to d none = d
  default_to d (some x) = x

  unfoldable pub freshness_weight : ℕ → F → F → F
  freshness_weight age eta kappa =
      if eqb age 0
      then one
      else default_to floats.zero (
          weibull age (if floats.at_most eta floats.zero then thirty else eta)
            (if floats.at_most kappa floats.zero then one else kappa))

  -- `rerank_score`, else `score`, else 0.0
  unfoldable pub base_of : Item → F
  base_of r = default_to floats.zero (or_else r.rerank_score r.score)

  unfoldable pub decays : List String → Item → Bool
  decays decay_tiers r = in_texts (field "tier" r.metadata) decay_tiers

  -- `items.sort(key=..., reverse=True)`
  unfoldable pub sort : List Item → List Item
  sort items = sort_by below (λ r. r.durable_freshness_score) items

  module _ (parse : String → Option ℕ) (now : ℕ) (eta kappa : F) (decay_tiers : List String) where
    -- A creation time that does not parse decays nothing; one in the future has no age.
    abbrev pub decay_at : Option ℕ → F
    decay_at none = one
    decay_at (some t) = freshness_weight (now - t) eta kappa

    unfoldable pub decay_of : Item → F
    decay_of r =
        let created =
          (let c = field "created_at" r.metadata in if truthy c then c else r.created_at) in
        if truthy created then decay_at (parse (value_text created)) else one

    unfoldable pub settle : Item → Item
    settle r =
        if decays decay_tiers r
        then record r {
          durable_freshness_weight = some (round6 (decay_of r));
          durable_freshness_score = times (base_of r) (decay_of r);
        }
        else record r { durable_freshness_score = base_of r }

    unfoldable pub apply_durable_freshness : List Item → Bool × List Item
    apply_durable_freshness items =
        let settled = map settle items in
        let any_decayed = any (decays decay_tiers) items in
        (any_decayed, if any_decayed then sort settled else settled)
