-- ===== src/Admission/Cleared.antt =====
-- What `resolve_stamp_tiers` of mem0-server/admission_gate.py tells of the target of one stamp.
use mathlib.Core.Bool.{false≢true}
use agentic_memory_stack_for.Prelude.{
  ℕ, ◌<◌, String, ◌≡◌, ◌⊎◌, refl, sym, ap, ◌∙◌, inl, inr, arith, Bool, true, false, Option, none,
  some, List, [], ◌∷◌, ltb, All, Bool-cases,
}
use agentic_memory_stack_for.Prelude.Text.{mem}
use agentic_memory_stack_for.Prelude.Dict.{Dict, get}
use agentic_memory_stack_for.Payload.{Value, field, is_text}
use agentic_memory_stack_for.Admission.Apply.{
  Cache, sorted_set, fresh_tier, cached, missing, answer, resolve_stamp_tiers,
}
use agentic_memory_stack_for.Admission.Stamps.{
  mem-sorted_set, missing-All, get-learn, get-cached, mem-missing,
}

-- The cache holds an answer that is still good.
abbrev pub is_fresh : ℕ → Option (ℕ × Value) → Bool
is_fresh now none = false
is_fresh now (some (expiry, tier)) = ltb now expiry

fresh_cases :
    (now : ℕ) (o : Option (ℕ × Value))
    → ((is_fresh now o ≡ false) × (fresh_tier now o ≡ none))
      ⊎ ((expiry : ℕ) × (tier : Value) × (o ≡ some (expiry, tier))
          × (now < expiry)
          × (fresh_tier now o ≡ some tier))
unfolding fresh_tier
fresh_cases now none = inl (refl, refl)
fresh_cases now (some (expiry, tier)) = elim (Bool-cases (ltb now expiry)) [
  | inl e ↦ inr (expiry, tier, refl, ground arith, rw e refl)
  | inr e ↦ inl (e, rw e refl)
]

module _ (fetch : List String → Option (Dict Value)) (now : ℕ) (cache : Cache) (t : String) where
  -- What the asked fetcher leaves under `t`.
  abbrev AskedFor : List String → Dict Value → Option (Dict Value) → Dict Value → Type 0
  AskedFor ask out o tiers =
      ((mem t ask ≡ false) × (get t tiers ≡ get t out))
      ⊎ ((mem t ask ≡ true)
          × ((o ≡ none)
              ⊎ ((found : Dict Value) × (o ≡ some found) × (get t tiers ≡ some (field t found)))))

  answer-AskedFor :
      (ask : List String) (out : Dict Value) (o : Option (Dict Value))
      → (tiers : Dict Value) × ((answer now o ask out cache).0 ≡ some tiers)
        × AskedFor ask out o tiers
  unfolding answer
  answer-AskedFor ask out none = elim (Bool-cases (mem t ask)) [
    | inl e ↦ (out, refl, inr (e, inl refl))
    | inr e ↦ (out, refl, inl (e, refl))
  ]
  answer-AskedFor ask out (some found) =
      let g = get-learn now found t ask out cache in
      elim (Bool-cases (mem t ask)) [
        | inl e ↦ (_, refl, inr (e, inr (found, refl, g ∙ rw e refl)))
        | inr e ↦ (_, refl, inl (e, g ∙ rw e refl))
      ]

  pub resolved-AskedFor :
      (ts : List String)
      → let ids = sorted_set ts in
        let ask = missing now cache ids in
        (tiers : Dict Value) × ((resolve_stamp_tiers (some fetch) now cache ts).0 ≡ some tiers)
        × AskedFor ask (cached now cache ids) (fetch ask) tiers
  unfolding resolve_stamp_tiers
  resolved-AskedFor ts =
      asked (missing now cache (sorted_set ts)) (cached now cache (sorted_set ts))
    where
      asked :
          (ask : List String) (out : Dict Value)
          → (tiers : Dict Value) × ((elim ask as (λ _. Option (Dict Value) × Cache) [
            | [] ↦ (some out, cache)
            | x ∷ xs ↦ answer now (fetch (x ∷ xs)) (x ∷ xs) out cache
          ]).0
              ≡ some tiers)
            × AskedFor ask out (fetch ask) tiers
      asked [] out = (out, refl, inl (unfold mem in refl, refl))
      asked (x ∷ xs) out = answer-AskedFor (x ∷ xs) out (fetch (x ∷ xs))

  -- The cache still has the tier of `t`, which is not canonical; or it has none that is good, and a
  -- list of targets with `t` in it was asked for, which failed or told a tier that is not canonical.
  abbrev pub IsCleared : List String → Type 0
  IsCleared ts =
      ((expiry : ℕ) × (tier : Value) × (get t cache ≡ some (expiry, tier))
        × (now < expiry)
        × (is_text tier "canonical" ≡ false))
      ⊎ ((is_fresh now (get t cache) ≡ false)
          × ((ids : List String) × (mem t ids ≡ true)
              × All (λ i. mem i ts ≡ true) ids
              × ((fetch ids ≡ none)
                  ⊎ ((found : Dict Value) × (fetch ids ≡ some found)
                      × (is_text (field t found) "canonical" ≡ false)))))

  field-get : (tiers : Dict Value) (v : Value) → get t tiers ≡ some v → field t tiers ≡ v
  unfolding field
  field-get tiers v e = rw (field, e) refl

  abbrev Unhidden : Dict Value → Type 0
  Unhidden tiers = is_text (field t tiers) "canonical" ≡ false

  pub cleared :
      (ts : List String) (tiers : Dict Value)
      → mem t ts ≡ true
      → AskedFor
          (missing now cache (sorted_set ts))
          (cached now cache (sorted_set ts))
          (fetch (missing now cache (sorted_set ts)))
          tiers
      → Unhidden tiers
      → IsCleared ts
  cleared ts tiers m a u =
      let ids = sorted_set ts in
      let there : mem t ids ≡ true = mem-sorted_set t ts ∙ m in
      elim (fresh_cases now (get t cache)) [
        | inl (stale, f) ↦
            let wanted : mem t (missing now cache ids) ≡ true =
              mem-missing now cache t ids ∙ rw (there, f) refl in
            elim a [
              | inl (absent, _) ↦ absurd (false≢true (sym absent ∙ wanted))
              | inr (_, inl none_found) ↦
                  inr (
                    stale,
                    (missing now cache ids, wanted, missing-All now cache ts, inl none_found),
                  )
              | inr (_, inr (found, e, g)) ↦ inr (
                stale,
                (
                  missing now cache ids,
                  wanted,
                  missing-All now cache ts,
                  inr (found, e, ap (λ v. is_text v "canonical") (sym (field-get tiers _ g)) ∙ u),
                ),
              )
            ]
        | inr (expiry, tier, e, early, f) ↦
            let unwanted : mem t (missing now cache ids) ≡ false =
              mem-missing now cache t ids ∙ rw (there, f) refl in
            elim a [
              | inr (asked, _) ↦ absurd (false≢true (sym unwanted ∙ asked))
              | inl (_, g) ↦
                  let known_tier : get t (cached now cache ids) ≡ some tier =
                    get-cached now cache t ids ∙ rw (there, f) refl in
                  inl (
                    expiry,
                    tier,
                    e,
                    early,
                    ap (λ v. is_text v "canonical") (sym (field-get tiers tier (g ∙ known_tier)))
                        ∙ u,
                  )
            ]
      ]
