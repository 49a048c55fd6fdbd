-- ===== src/Fusion/Ranked.antt =====
-- What the fusion returns: candidates that passed the gate, by falling score, each with its leg.
use mathlib.Core.Bool.{false≢true}
use agentic_memory_stack_for.Prelude.{
  ℕ, zero, suc, ◌≤◌, String, ◌≡◌, refl, inl, inr, ◌⊎◌, Bool, true, false, Option, none, some, List,
  [], ◌∷◌, ◌==◌, eq_refl, eq_iff, if◌then◌else◌, length, map, All, All-map, Bool-cases, take,
  length-take, All-take,
}
use agentic_memory_stack_for.Payload.{Payload}
use agentic_memory_stack_for.Prelude.Dict.{Dict, get, put, get-put}
use agentic_memory_stack_for.Prelude.Sorting.{
  IsOrder, sort_by, Descending, NotBelow, sort_by-Descending, All-sort_by,
}
use agentic_memory_stack_for.Fusion.Rank.{
  Floats, Weights, Hit, Entry, or_zero, gate, pool_of, ranks_from, ids_of, rank_positive, Leg, Item,
  leg_of, item_of, score_all, rrf,
}

Descending-take :
    {A F : Type 0} (below : F → F → Bool) (key : A → F) (n : ℕ) (xs : List A)
    → Descending below key xs
    → Descending below key (take n xs)
Descending-take below key zero xs h = tt
Descending-take below key (suc n) [] h = tt
Descending-take below key (suc n) (x ∷ xs) h =
    (All-take (NotBelow below key x) n xs h.0, Descending-take below key n xs h.1)

module _ (floats : Floats) (threshold : floats.F) where
  -- One of the hits has this id and payload, and this cosine, which is not below the threshold.
  abbrev pub FromHit : String → Option Payload → floats.F → List (Hit floats) → Type 0
  FromHit id payload cosine [] = ⊥
  FromHit id payload cosine (h ∷ hs) =
      ((h.id ≡ some id)
        × (h.payload ≡ payload)
        × (or_zero floats h.score ≡ cosine)
        × (floats.below cosine threshold ≡ false))
      ⊎ FromHit id payload cosine hs

  abbrev IsGated : List (Hit floats) → Entry floats → Type 0
  IsGated hs e = FromHit e.id e.payload e.cosine hs

  gate-IsGated :
      (h : Hit floats) (hs : List (Hit floats)) (o : Option String) (rest : List (Entry floats))
      → h.id ≡ o
      → All (IsGated (h ∷ hs)) rest
      → All (IsGated (h ∷ hs)) (gate floats threshold o h rest)
  gate-IsGated h hs none rest e r = r
  gate-IsGated h hs (some id) rest e r =
      elim (Bool-cases (floats.below (or_zero floats h.score) threshold)) [
        | inl b ↦ rw b r
        | inr b ↦ rw b (inl (e, refl, refl, b), r)
      ]

  pool_of-IsGated : (hs : List (Hit floats)) → All (IsGated hs) (pool_of floats threshold hs)
  unfolding pool_of
  pool_of-IsGated [] = tt
  pool_of-IsGated (h ∷ hs) =
      gate-IsGated h hs h.id (pool_of floats threshold hs) refl
        (All-map (IsGated hs) (IsGated (h ∷ hs)) _ (λ x g. inr g) (pool_of-IsGated hs))

  -- The cosine of this leg is the one of a hit of this id that passed the gate.
  abbrev pub HasLeg : List (Hit floats) → String → Option (Leg floats) → Type 0
  HasLeg hs id none = ⊥
  HasLeg hs id (some l) = (p : Option Payload) × FromHit id p l.cosine hs

  HasLeg-if :
      (hs : List (Hit floats)) (id : String) (b : Bool) (l : Leg floats) (o : Option (Leg floats))
      → (b ≡ true → HasLeg hs id (some l))
      → b ≡ true ⊎ HasLeg hs id o
      → HasLeg hs id (if b then some l else o)
  HasLeg-if hs id true l o h k = h refl
  HasLeg-if hs id false l o h (inl k) = absurd (false≢true k)
  HasLeg-if hs id false l o h (inr k) = k

  abbrev pub score : Item floats → floats.F
  score i = i.score

  -- One of the hits that passed the gate, with its leg.
  abbrev pub IsCandidate : List (Hit floats) → Dict (Leg floats) → Item floats → Type 0
  IsCandidate hs legs i =
      ((c : floats.F) × FromHit i.id i.payload c hs) × HasLeg hs i.id (get i.id legs)

  -- The loop over the pool keeps the legs of `d`, and gives one to each item.
  module _ (w : Weights floats) (bm25 entity : Dict floats.F) (explain : Bool)
      (dense keyword boosted : Dict ℕ) where
    abbrev leg : Entry floats → Leg floats
    leg e = leg_of floats w bm25 entity threshold explain dense keyword boosted e

    leg-HasLeg :
        (hs : List (Hit floats)) (k : String) (e : Entry floats)
        → IsGated hs e
        → (e.id == k) ≡ true
        → HasLeg hs k (some (leg e))
    unfolding leg_of
    leg-HasLeg hs k e h same = rw (← (eq_iff e.id k).0 same) (e.payload, h)

    score_all-kept :
        (hs : List (Hit floats)) (k : String) (es : List (Entry floats)) (d : Dict (Leg floats))
        → All (IsGated hs) es
        → HasLeg hs k (get k d)
        → HasLeg hs k (get k (score_all floats w bm25 entity threshold explain leg es d).1)
    unfolding score_all
    score_all-kept hs k [] d h g = g
    score_all-kept hs k (e ∷ es) d h g = score_all-kept hs k es (put e.id (leg e) d) h.1 (
        rw (get-put e.id k (leg e) d)
          (HasLeg-if hs k (e.id == k) (leg e) (get k d) (leg-HasLeg hs k e h.0) (inr g)))

    -- The first turn of the loop gives the leg that its item keeps.
    first-HasLeg :
        (hs : List (Hit floats)) (e : Entry floats) (d : Dict (Leg floats))
        → IsGated hs e
        → HasLeg hs e.id (get e.id (put e.id (leg e) d))
    first-HasLeg hs e d h = rw (get-put e.id e.id (leg e) d) (
        HasLeg-if hs e.id (e.id == e.id) (leg e) (get e.id d) (leg-HasLeg hs e.id e h)
          (inl (eq_refl e.id)))

    score_all-IsCandidate :
        (hs : List (Hit floats)) (es : List (Entry floats)) (d : Dict (Leg floats))
        → All (IsGated hs) es
        → let r = score_all floats w bm25 entity threshold explain leg es d in
          All (IsCandidate hs r.1) r.0
    unfolding score_all item_of
    score_all-IsCandidate hs [] d h = tt
    score_all-IsCandidate hs (e ∷ es) d h = (
      (
        (e.cosine, h.0),
        score_all-kept hs e.id es (put e.id (leg e) d) h.1 (first-HasLeg hs e d h.0),
      ),
      score_all-IsCandidate hs es (put e.id (leg e) d) h.1,
    )

  module _ (w : Weights floats) (bm25 entity : Dict floats.F) (explain : Bool) where
    -- When floats are ordered, the fusion returns at most as many items as asked for, by falling
    -- score, and each is one of the hits whose cosine is not below the threshold, with its payload
    -- and with a recorded leg that has the cosine of such a hit of its id.
    pub rrf-IsCandidate :
        IsOrder floats.below
        → (hs : List (Hit floats)) (top_k : ℕ)
        → let r = rrf floats w bm25 entity threshold explain hs top_k in
          (length r.0 ≤ top_k) × Descending floats.below score r.0 × All (IsCandidate hs r.1) r.0
    unfolding rrf
    rrf-IsCandidate o hs top_k =
        let pool =
          sort_by floats.below (λ (e : Entry floats). e.cosine) (pool_of floats threshold hs) in
        let dense = ranks_from floats 0 (map (λ (e : Entry floats). e.id) pool) [] in
        let bm25_ranks = rank_positive floats bm25 (ids_of floats dense) in
        let entity_ranks = rank_positive floats entity (ids_of floats dense) in
        let r =
          score_all floats w bm25 entity threshold explain
            (leg_of floats w bm25 entity threshold explain dense bm25_ranks entity_ranks) pool [] in
        (
          length-take top_k (sort_by floats.below score r.0),
          Descending-take floats.below score top_k _ (sort_by-Descending floats.below score o r.0),
          All-take (IsCandidate hs r.1) top_k _ (
              All-sort_by floats.below score (IsCandidate hs r.1) r.0 (
                score_all-IsCandidate w bm25 entity explain dense bm25_ranks entity_ranks hs pool []
                  (All-sort_by floats.below _ (IsGated hs) _ (pool_of-IsGated hs)))),
        )
