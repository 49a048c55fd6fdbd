-- ===== src/Fusion/Search.antt =====
-- mem0-server/fusion.py around a search: `ams_score_and_rank`, which mem0 calls, `begin_search`,
-- `end_search` and `health`. The legs of a request and the counts of searches are the state.
use agentic_memory_stack_for.Prelude.{
  ℕ, suc, String, Bool, true, false, not, ◌&&◌, ◌||◌, Option, none, some, List, [], ◌∷◌, eqb,
  if◌then◌else◌, or_else,
}
use agentic_memory_stack_for.Prelude.Dict.{Dict, get, put}
use agentic_memory_stack_for.Fusion.Rank.{
  Floats, Mode, rrf_mode, mem0_mode, mode, Weights, default_weights, Hit, Leg, Item, or_zero, rrf,
}

module _ (floats : Floats) where
  open floats use {F, tenth, below}

  -- `constants` are the globals that `configure` sets and `health` reports.
  pub record State : Type 0 where
    pub constants : Weights floats
    pub last_legs : Option (Dict (Leg floats))
    pub reached : ℕ
    pub bypassed : ℕ

  -- A constant that is out of range raises: none.
  unfoldable pub configure : F → F → F → State → Option State
  configure k w_bm25 w_entity s =
      if below floats.zero k && not (below w_bm25 floats.zero) && not (below w_entity floats.zero)
      then some (record s { constants = record { k = k; w_bm25 = w_bm25; w_entity = w_entity } })
      else none

  -- mem0's own formula, with its candidates, legs, threshold and count.
  abbrev pub Formula : Type 0
  Formula = List (Hit floats) → Dict F → Dict F → F → ℕ → Bool → List (Item floats)

  abbrev cosine_leg : Option F → Leg floats
  cosine_leg s = record { cosine = or_zero floats s; ranks = none }

  -- `{str(r["id"]): {"cosine": ...} for r in semantic_results ...}`
  abbrev add_cosine : Option String → Option F → Dict (Leg floats) → Dict (Leg floats)
  add_cosine none s d = d
  add_cosine (some id) s d = put id (cosine_leg s) d

  unfoldable pub cosine_legs : List (Hit floats) → Dict (Leg floats) → Dict (Leg floats)
  unfolding put
  cosine_legs [] d = d
  cosine_legs (h ∷ hs) d = cosine_legs hs (add_cosine h.id h.score d)

  abbrev pub or_tenth : Option F → F
  or_tenth none = tenth
  or_tenth (some t) = t

  module _ (explain : Bool) where
    -- The call of `rrf` names no constants.
    abbrev pub rank_fused :
        List (Hit floats) → Dict F → Dict F → F → ℕ → State → List (Item floats) × State
    rank_fused hits bm25 entity threshold top_k s =
        let (items, legs) =
          rrf floats (default_weights floats) bm25 entity threshold explain hits top_k in
        (items, record s { last_legs = some legs })

    -- mem0's formula ranks where the mode says so and `install` has kept it.
    abbrev pub rank_by :
        Mode
        → Option Formula
        → List (Hit floats)
        → Dict F
        → Dict F
        → F
        → ℕ
        → State
        → List (Item floats) × State
    rank_by mem0_mode (some original) hits bm25 entity threshold top_k s = (
      original hits bm25 entity threshold top_k explain,
      record s { last_legs = some (cosine_legs hits []) },
    )
    rank_by mem0_mode none hits bm25 entity threshold top_k s =
        rank_fused hits bm25 entity threshold top_k s
    rank_by rrf_mode original hits bm25 entity threshold top_k s =
        rank_fused hits bm25 entity threshold top_k s

    unfoldable pub ams_score_and_rank :
        Option String
        → Option Formula
        → List (Hit floats)
        → Dict F
        → Dict F
        → Option F
        → ℕ
        → State
        → List (Item floats) × State
    unfolding mode cosine_legs rrf
    ams_score_and_rank environ original hits bm25 entity threshold top_k s =
        rank_by (mode environ) original hits bm25 entity (or_tenth threshold) top_k s

  unfoldable pub begin_search : State → State
  begin_search s = record s { last_legs = none }

  -- A result of mem0's search.
  pub record Found : Type 0 where
    pub id : String
    pub cosine : Option F

  abbrev pub cosine_of : Option (Leg floats) → Option F
  cosine_of none = none
  cosine_of (some l) = some l.cosine

  unfoldable pub stamp_cosines : Dict (Leg floats) → List Found → List Found
  unfolding get
  stamp_cosines legs [] = []
  stamp_cosines legs (f ∷ fs) =
      record f { cosine = or_else (cosine_of (get f.id legs)) f.cosine } ∷ stamp_cosines legs fs

  abbrev pub settle : Option (Dict (Leg floats)) → List Found → State → List Found × State
  settle none fs s = (fs, record s { bypassed = suc s.bypassed })
  settle (some legs) fs s = (stamp_cosines legs fs, record s { reached = suc s.reached })

  unfoldable pub end_search : List Found → State → List Found × State
  unfolding stamp_cosines
  end_search [] s = ([], s)
  end_search (f ∷ fs) s = settle s.last_legs (f ∷ fs) s

  abbrev is_mem0 : Mode → Bool
  is_mem0 mem0_mode = true
  is_mem0 rrf_mode = false

  -- `bound` is what `install` has found.
  unfoldable pub health_ok : Bool → Option String → State → Bool
  unfolding mode
  health_ok bound environ s = (bound && eqb s.bypassed 0) || is_mem0 (mode environ)
