-- ===== src/Sweep/Candidates.antt =====
-- Which candidates of a canonical the sweep judges.
use agentic_memory_stack_for.Prelude.{
  ℕ, zero, suc, ◌-◌, ◌≤◌, String, Bool, true, false, not, ◌&&◌, ◌||◌, Option, none, some, List, [],
  ◌∷◌, ◌≡◌, refl, ap, inl, inr, arith, leb, eqb, if◌then◌else◌, filter, Option-cases, is_some, take,
  Bool-cases, ◌==◌, ltb, ◌+◌, ◌*◌,
}
use agentic_memory_stack_for.Payload.{Payload, Value, truthy, field, is_text, is_false, value_text}
use agentic_memory_stack_for.Prelude.Text.{lower, strip}
use agentic_memory_stack_for.Sweep.Rules.{
  checked_within, candidate_skip_reason, Skip, eligible, same_brand_scope, canonical_tier, retired,
  superseded, stamped_recently, brand_mismatch, checked_recently, no_text,
}

-- The tests of `candidate_skip_reason`, in their order.
first_reason :
    (tier hidden aged gone stamped young brand checked text memory : Bool)
    → is_some (
        if tier
        then some canonical_tier
        else if hidden || aged
        then some retired
        else if gone
        then some superseded
        else if stamped && young
        then some stamped_recently
        else if not brand
        then some brand_mismatch
        else if not stamped && checked
        then some checked_recently
        else if not (text || memory)
        then some no_text
        else none)
      ≡ not (
          not tier
          && not hidden
          && not aged
          && not gone
          && brand
          && not (if stamped then young else checked)
          && (text || memory))
first_reason true _ _ _ _ _ _ _ _ _ = refl
first_reason false true _ _ _ _ _ _ _ _ = refl
first_reason false false true _ _ _ _ _ _ _ = refl
first_reason false false false true _ _ _ _ _ _ = refl
first_reason false false false false true true true _ _ _ = refl
first_reason false false false false true true false _ _ _ = refl
first_reason false false false false true false false _ _ _ = refl
first_reason false false false false false _ false _ _ _ = refl
first_reason false false false false true false true _ d m = ground arith
first_reason false false false false false _ true true d m = refl
first_reason false false false false false _ true false d m = ground arith

not_zero : (n : ℕ) → eqb (suc n) 0 ≡ false
not_zero n = ground arith

more : (n : ℕ) → leb (suc (suc n)) 1 ≡ false
more n = ground arith

less : (n : ℕ) → suc (suc n) - 1 ≡ suc n
less n = omega arith

-- Both brands are the same text, but for the case of its letters and the blanks around it, or one
-- of them is missing.
abbrev share_brand : Value → Value → Bool
share_brand a b =
    if truthy a && truthy b
    then lower (strip (value_text a)) == lower (strip (value_text b))
    else true

share_brand_lem : (a b : Value) → same_brand_scope a b ≡ share_brand a b
unfolding same_brand_scope
share_brand_lem a b = elim (Bool-cases (truthy a)) [
  | inl e ↦ elim (Bool-cases (truthy b)) [ inl g ↦ rw (e, g) refl | inr g ↦ rw (e, g) refl ]
  | inr e ↦ rw e refl
]

and_assoc : (a b c : Bool) → (a && b && c) ≡ (a && (b && c))
and_assoc true b c = refl
and_assoc false b c = refl

module _ (parse : String → Option ℕ) (now recheck_days recheck_stamped_days : ℕ) where
  abbrev younger_than : ℕ → Option ℕ → Bool
  younger_than days none = false
  younger_than days (some t) = ltb 0 days && ltb now (t + days * 86400000000)

  -- The record was checked less than the days ago.
  abbrev pub is_fresh : ℕ → Value → Bool
  is_fresh days checked = truthy checked && younger_than days (parse (value_text checked))

  is_fresh_lem :
      (days : ℕ) (p : Payload)
      → checked_within parse now recheck_days recheck_stamped_days days p
        ≡ is_fresh days (field "contradiction_checked_at" p)
  unfolding checked_within
  is_fresh_lem days p =
      elim (Option-cases (parse (value_text (field "contradiction_checked_at" p)))) [
        | inl e ↦ rw e (ground arith)
        | inr (t, e) ↦ rw e (and_assoc (truthy (field "contradiction_checked_at" p)) _ _)
      ]

  -- A live record of the same brand scope, with a text, that was not checked within its days.
  unfoldable pub is_judgeable : Payload → Payload → Bool
  is_judgeable canonical_payload p =
      not (is_text (field "tier" p) "canonical")
      && not (is_false (field "retrievable" p))
      && not (truthy (field "retired_at" p))
      && not (truthy (field "superseded_by" p))
      && share_brand (field "brand" canonical_payload) (field "brand" p)
      && not (
          if truthy (field "contradicts_canonical" p)
          then is_fresh recheck_stamped_days (field "contradiction_checked_at" p)
          else is_fresh recheck_days (field "contradiction_checked_at" p))
      && (truthy (field "data" p) || truthy (field "memory" p))

  skip_reason-judgeable :
      (c p : Payload)
      → is_some (candidate_skip_reason parse now recheck_days recheck_stamped_days p c)
        ≡ not (is_judgeable c p)
  unfolding candidate_skip_reason is_judgeable
  skip_reason-judgeable c p =
      rw
        (
          is_fresh_lem recheck_stamped_days p,
          is_fresh_lem recheck_days p,
          share_brand_lem (field "brand" c) (field "brand" p),
        )
        (first_reason _ _ _ _ (truthy (field "contradicts_canonical" p)) _ _ _
          (truthy (field "data" p)) (truthy (field "memory" p)))

  judgeable :
      (c p : Payload)
      → candidate_skip_reason parse now recheck_days recheck_stamped_days p c ≡ none
      → is_judgeable c p ≡ true
  judgeable c p e = ground (arith, skip_reason-judgeable c p)

  not_judgeable :
      (c p : Payload) (r : Skip)
      → candidate_skip_reason parse now recheck_days recheck_stamped_days p c ≡ some r
      → is_judgeable c p ≡ false
  not_judgeable c p r e = ground (arith, skip_reason-judgeable c p)

  kept :
      (n : ℕ) (c p : Payload) (ps : List Payload)
      → (1 ≤ n
          → eligible parse now recheck_days recheck_stamped_days n c ps
            ≡ take n (filter (is_judgeable c) ps))
      → elim (leb (suc n) 1) [
        | true ↦ p ∷ []
        | false ↦ p ∷ eligible parse now recheck_days recheck_stamped_days (suc n - 1) c ps
      ]
        ≡ p ∷ take n (filter (is_judgeable c) ps)
  kept zero c p ps h = refl
  kept (suc n) c p ps h = rw (more n, less n) (ap (◌∷◌ p) (h (omega arith)))

  -- When the sweep judges at least one candidate of a canonical, it judges the first that are
  -- judgeable, at most as many as it may: live records of the same brand scope with a text that
  -- were not checked within their days, which are others for a record with a contradiction stamp.
  pub eligible_lem :
      (top_k : ℕ) (canonical_payload : Payload) (ps : List Payload)
      → 1 ≤ top_k
      → eligible parse now recheck_days recheck_stamped_days top_k canonical_payload ps
        ≡ take top_k (filter (is_judgeable canonical_payload) ps)
  unfolding eligible filter
  eligible_lem zero c ps h = absurd (omega arith)
  eligible_lem (suc n) c [] h = refl
  eligible_lem (suc n) c (p ∷ ps) h =
      elim (Option-cases (candidate_skip_reason parse now recheck_days recheck_stamped_days p c)) [
        | inl e ↦ rw (e, eligible, judgeable c p e, filter) (kept n c p ps (eligible_lem n c ps))
        | inr (r, e) ↦
            rw (e, eligible, not_judgeable c p r e, filter, not_zero n)
              (eligible_lem (suc n) c ps h)
      ]
