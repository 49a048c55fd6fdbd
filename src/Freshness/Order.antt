-- ===== src/Freshness/Order.antt =====
-- The scores and the order that durable freshness leaves.
use mathlib.Core.Bool.{false≢true}
use agentic_memory_stack_for.Prelude.{
  ℕ, String, ◌≡◌, refl, sym, inl, inr, true, false, Option, none, some, if◌then◌else◌, ◌-◌, ap,
  or_else, List, [], ◌∷◌, any, map, Bool-cases,
}
use agentic_memory_stack_for.Prelude.Sorting.{IsOrder, Descending, sort_by-Descending, sort_by-Perm}
use agentic_memory_stack_for.Payload.{Value, truthy, field, value_text, in_texts}
use mathlib.Core.List.{Perm}
use mathlib.Core.List.Perm
use agentic_memory_stack_for.Freshness.Decay.{
  Floats, Item, decays, base_of, settle, sort, apply_durable_freshness, freshness_weight, decay_at,
  decay_of, default_to,
}

module _ (floats : Floats) where
  abbrev pub score : Item floats → floats.F
  score r = r.durable_freshness_score

  module _ (parse : String → Option ℕ) (now : ℕ) (eta kappa : floats.F)
      (decay_tiers : List String) where
    -- The weight of a creation time: none that is filled and readable, no decay.
    abbrev weight_since : Option ℕ → floats.F
    weight_since none = floats.one
    weight_since (some t) = freshness_weight floats (now - t) eta kappa

    abbrev weight_at : Value → floats.F
    weight_at created =
        if truthy created then weight_since (parse (value_text created)) else floats.one

    -- The creation time in the metadata, else the record's own.
    abbrev pub created : Item floats → Value
    created r =
        if truthy (field "created_at" r.metadata)
        then field "created_at" r.metadata
        else r.created_at

    -- The first score that is there, else 0.
    abbrev raw_score : Item floats → floats.F
    raw_score r = elim r.rerank_score [
      | some x ↦ x
      | none ↦ elim r.score [ some x ↦ x | none ↦ floats.zero ]
    ]

    -- The item with its score: the raw score, times the weight of its age for a decaying tier.
    abbrev pub scored : Item floats → Item floats
    scored r =
        if in_texts (field "tier" r.metadata) decay_tiers
        then record r {
          durable_freshness_weight = some (floats.round6 (weight_at (created r)));
          durable_freshness_score = floats.times (raw_score r) (weight_at (created r));
        }
        else record r { durable_freshness_score = raw_score r }

    since : (o : Option ℕ) → decay_at floats parse now eta kappa decay_tiers o ≡ weight_since o
    since none = refl
    since (some t) = refl

    decay_of_lem :
        (r : Item floats)
        → decay_of floats parse now eta kappa decay_tiers r ≡ weight_at (created r)
    unfolding decay_of
    decay_of_lem r =
        ap (λ d. if truthy (created r) then d else floats.one)
          (since (parse (value_text (created r))))

    raw :
        (a b : Option floats.F)
        → default_to floats floats.zero (or_else a b)
          ≡ elim a [ some x ↦ x | none ↦ elim b [ some x ↦ x | none ↦ floats.zero ] ]
    raw (some x) b = refl
    raw none (some x) = refl
    raw none none = refl

    base_of_lem : (r : Item floats) → base_of floats r ≡ raw_score r
    unfolding base_of
    base_of_lem r = raw r.rerank_score r.score

    settle_lem : (r : Item floats) → settle floats parse now eta kappa decay_tiers r ≡ scored r
    unfolding settle decays
    settle_lem r = rw (decay_of_lem r, base_of_lem r) refl

    settled_lem :
        (rs : List (Item floats))
        → map (settle floats parse now eta kappa decay_tiers) rs ≡ map scored rs
    settled_lem [] = refl
    settled_lem (r ∷ rs) = rw (settle_lem r, settled_lem rs) refl

    -- When the scores are ordered, durable freshness returns a permutation of its items with their
    -- scores (the raw score, times the weight of the age for a decaying tier), tells whether a
    -- tier of one decays, and returns them by falling score if one does, and in their order if
    -- none does.
    pub apply_durable_freshness-Descending :
        IsOrder floats.below
        → (items : List (Item floats))
        → let s = apply_durable_freshness floats parse now eta kappa decay_tiers items in
          Perm s.1 (map scored items)
          × (s.0 ≡ any (λ r. in_texts (field "tier" r.metadata) decay_tiers) items)
          × (s.0 ≡ true → Descending floats.below score s.1)
          × (s.0 ≡ false → s.1 ≡ map scored items)
    unfolding apply_durable_freshness sort decays
    apply_durable_freshness-Descending o items =
        elim (Bool-cases (any (λ r. in_texts (field "tier" r.metadata) decay_tiers) items)) [
          | inl e ↦
              rw (e, settled_lem items)
                (
                  sort_by-Perm floats.below score (map scored items),
                  refl,
                  (λ _. sort_by-Descending floats.below score o (map scored items)),
                  (λ f. absurd (false≢true (sym f))),
                )
          | inr e ↦
              rw (e, settled_lem items)
                (Perm.refl (map scored items), refl, (λ f. absurd (false≢true f)), (λ _. refl))
        ]
