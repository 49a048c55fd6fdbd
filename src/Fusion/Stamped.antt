-- ===== src/Fusion/Stamped.antt =====
-- What a search that is ranked by the fusion leaves on its results, and what one that is not leaves in
-- the counts.
use mathlib.Core.Bool.{false≢true}
use mathlib.Core.Path.{subst}
use agentic_memory_stack_for.Prelude.{
  or_else, ℕ, suc, String, ◌≡◌, refl, sym, ap, ◌∙◌, inl, inr, arith, Bool, true, false, Option,
  none, some, List, [], ◌∷◌, ◌==◌, eq_iff, if◌then◌else◌, any, All, Bool-cases,
}
use agentic_memory_stack_for.Prelude.Dict.{Dict, get}
use agentic_memory_stack_for.Payload.{Payload}
use agentic_memory_stack_for.Prelude.Sorting.{IsOrder}
use agentic_memory_stack_for.Fusion.Rank.{
  Floats, Mode, rrf_mode, mem0_mode, mode, Weights, default_weights, Hit, Leg, Item,
}
use agentic_memory_stack_for.Fusion.Search.{
  State, Formula, Found, or_tenth, cosine_of, stamp_cosines, ams_score_and_rank, begin_search,
  configure, end_search, health_ok, rank_by, rank_fused,
}
use agentic_memory_stack_for.Fusion.Ranked.{FromHit, HasLeg, IsCandidate, rrf-IsCandidate}

module _ (floats : Floats) where
  -- The results are among the ranked items.
  abbrev pub Among : List (Item floats) → List (Found floats) → Type 0
  Among items fs =
      All (λ (f : Found floats). any (λ (i : Item floats). i.id == f.id) items ≡ true) fs

  -- The cosine of a hit of this id that passed the gate.
  abbrev pub HasCosine : floats.F → List (Hit floats) → Found floats → Type 0
  HasCosine threshold hs f =
      (c : floats.F) × (f.cosine ≡ some c)
      × ((p : Option Payload) × FromHit floats threshold f.id p c hs)

  found-HasLeg :
      (threshold : floats.F) (hs : List (Hit floats)) (legs : Dict (Leg floats)) (id : String)
      (items : List (Item floats))
      → All (IsCandidate floats threshold hs legs) items
      → any (λ (i : Item floats). i.id == id) items ≡ true
      → HasLeg floats threshold hs id (get id legs)
  unfolding any
  found-HasLeg threshold hs legs id [] h k = absurd (false≢true k)
  found-HasLeg threshold hs legs id (i ∷ is) h k = elim (Bool-cases (i.id == id)) [
    | inl e ↦ rw (← (eq_iff i.id id).0 e) h.0.1
    | inr e ↦ found-HasLeg threshold hs legs id is h.1 (ground arith)
  ]

  cosine-HasLeg :
      (threshold : floats.F) (hs : List (Hit floats)) (id : String) (old : Option floats.F)
      (o : Option (Leg floats))
      → HasLeg floats threshold hs id o
      → HasCosine threshold hs (record { id = id; cosine = or_else (cosine_of floats o) old })
  cosine-HasLeg threshold hs id old none h = absurd h
  cosine-HasLeg threshold hs id old (some l) h = (l.cosine, refl, h)

  stamp_cosines-HasCosine :
      (threshold : floats.F) (hs : List (Hit floats)) (legs : Dict (Leg floats))
      (items : List (Item floats)) (fs : List (Found floats))
      → All (IsCandidate floats threshold hs legs) items
      → Among items fs
      → All (HasCosine threshold hs) (stamp_cosines floats legs fs)
  unfolding stamp_cosines
  stamp_cosines-HasCosine threshold hs legs items [] h k = tt
  stamp_cosines-HasCosine threshold hs legs items (f ∷ fs) h k = (
    cosine-HasLeg threshold hs f.id f.cosine (get f.id legs)
        (found-HasLeg threshold hs legs f.id items h k.0),
    stamp_cosines-HasCosine threshold hs legs items fs h k.1,
  )

  ams_score_and_rank-fused :
      (explain : Bool) (environ : Option String) (original : Option (Formula floats))
      (hits : List (Hit floats)) (bm25 entity : Dict floats.F) (threshold : Option floats.F)
      (top_k : ℕ) (s : State floats)
      → mode environ ≡ rrf_mode
      → ams_score_and_rank floats explain environ original hits bm25 entity threshold top_k s
        ≡ rank_fused floats explain hits bm25 entity (or_tenth floats threshold) top_k s
  unfolding ams_score_and_rank
  ams_score_and_rank-fused explain environ original hits bm25 entity threshold top_k s m =
      ap
        (λ x.
          rank_by floats explain x original hits bm25 entity (or_tenth floats threshold) top_k s)
        m

  -- When floats are ordered and the fusion ranks, a search whose results are among the ranked
  -- items ends with a raw cosine on each of them that is the one of a hit of its id and is not
  -- below the threshold, counts once as reached, and leaves the count of bypassed searches.
  pub end_search-HasCosine :
      (explain : Bool) (environ : Option String) (original : Option (Formula floats))
      (hits : List (Hit floats)) (bm25 entity : Dict floats.F) (threshold : Option floats.F)
      (top_k : ℕ) (s : State floats) (f : Found floats) (fs : List (Found floats))
      → IsOrder floats.below
      → mode environ ≡ rrf_mode
      → let r =
          ams_score_and_rank floats explain environ original hits bm25 entity threshold top_k
            (begin_search floats s) in
        Among r.0 (f ∷ fs)
        → let out = end_search floats (f ∷ fs) r.1 in
          All (HasCosine (or_tenth floats threshold) hits) out.0
          × (out.1.reached ≡ suc s.reached)
          × (out.1.bypassed ≡ s.bypassed)
  unfolding end_search begin_search
  end_search-HasCosine explain environ original hits bm25 entity threshold top_k s f fs o m =
      subst
        (λ (r : List (Item floats) × State floats).
          Among r.0 (f ∷ fs)
          → All (HasCosine (or_tenth floats threshold) hits) (end_search floats (f ∷ fs) r.1).0
            × ((end_search floats (f ∷ fs) r.1).1.reached ≡ suc s.reached)
            × ((end_search floats (f ∷ fs) r.1).1.bypassed ≡ s.bypassed))
        (sym (
          ams_score_and_rank-fused explain environ original hits bm25 entity threshold top_k
            (begin_search floats s) m))
        (λ k. (
          stamp_cosines-HasCosine (or_tenth floats threshold) hits _ _ (f ∷ fs)
              (rrf-IsCandidate floats (or_tenth floats threshold) (default_weights floats) bm25
                entity explain o hits top_k).2
              k,
          refl,
          refl,
        ))

  -- A search that never reached the fusion.
  end_search-bypassed :
      (bound : Bool) (environ : Option String) (s : State floats) (f : Found floats)
      (fs : List (Found floats))
      → mode environ ≡ rrf_mode
      → let out = end_search floats (f ∷ fs) (begin_search floats s) in
        (out.0 ≡ f ∷ fs) × (health_ok floats bound environ out.1 ≡ false)
  unfolding end_search begin_search health_ok
  end_search-bypassed bound environ s f fs m = (refl, rw m (ground arith))

  configure-parts :
      (b : Bool) (s t : State floats) (w : Weights floats)
      → (if b then some (record s { constants = w }) else none) ≡ some t
      → t ≡ record s { constants = w }
  configure-parts true s t w h = cc
  configure-parts false s t w h = cc

  ranked_apart :
      (explain : Bool) (m : Mode) (original : Option (Formula floats)) (hits : List (Hit floats))
      (bm25 entity : Dict floats.F) (threshold : floats.F) (top_k : ℕ) (s : State floats)
      (w : Weights floats)
      → let r = rank_by floats explain m original hits bm25 entity threshold top_k s in
        rank_by floats explain m original hits bm25 entity threshold top_k
          (record s { constants = w })
        ≡ (r.0, record r.1 { constants = w })
  ranked_apart explain rrf_mode original hits bm25 entity threshold top_k s w = refl
  ranked_apart explain mem0_mode none hits bm25 entity threshold top_k s w = refl
  ranked_apart explain mem0_mode (some f) hits bm25 entity threshold top_k s w = refl

  -- Whatever constants configure sets, a search returns the items and records the legs that it
  -- would have without the call, while the constants that health reports are the new ones.
  pub ams_score_and_rank-configure :
      (explain : Bool) (environ : Option String) (original : Option (Formula floats))
      (hits : List (Hit floats)) (bm25 entity : Dict floats.F) (threshold : Option floats.F)
      (top_k : ℕ) (s t : State floats) (k w_bm25 w_entity : floats.F)
      → configure floats k w_bm25 w_entity s ≡ some t
      → let r =
          ams_score_and_rank floats explain environ original hits bm25 entity threshold top_k s in
        let q =
          ams_score_and_rank floats explain environ original hits bm25 entity threshold top_k t in
        (q.0 ≡ r.0)
        × (q.1.last_legs ≡ r.1.last_legs)
        × (q.1.constants ≡ record { k = k; w_bm25 = w_bm25; w_entity = w_entity })
  unfolding ams_score_and_rank configure
  ams_score_and_rank-configure explain environ original hits bm25 entity threshold top_k s t k
        w_bm25 w_entity h =
      let w : Weights floats = record { k = k; w_bm25 = w_bm25; w_entity = w_entity } in
      let e = configure-parts _ s t w h in
      let r =
        ranked_apart explain (mode environ) original hits bm25 entity (or_tenth floats threshold)
          top_k s w in
      let q =
        ap
          (rank_by floats explain (mode environ) original hits bm25 entity
            (or_tenth floats threshold) top_k)
          e
        ∙ r in
      (ap (λ x. x.0) q, ap (λ x. x.1.last_legs) q, ap (λ x. x.1.constants) q)
