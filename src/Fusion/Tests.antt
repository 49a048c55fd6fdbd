-- ===== src/Fusion/Tests.antt =====
-- A search over three hits, with floats that count thousandths.
use Prim.Native.Nat.{◌/◌}
use agentic_memory_stack_for.Prelude.{
  ℕ, ◌+◌, ◌*◌, ◌≤◌, String, ◌≡◌, refl, arith, false, none, some, List, [], ◌∷◌, ltb, length, All,
  any,
}
use agentic_memory_stack_for.Prelude.Dict.{Dict, get, put}
use agentic_memory_stack_for.Prelude.Sorting.{IsOrder, Descending, sort_by, insert_by}
use agentic_memory_stack_for.Fusion.Rank.{
  Floats, default_weights, Hit, Item, mode, rrf_mode, rrf, pool_of, ranks_from, rank_positive,
  fused, leg_of, item_of, score_all,
}
use agentic_memory_stack_for.Fusion.Search.{
  State, Found, ams_score_and_rank, begin_search, end_search, configure,
}
use agentic_memory_stack_for.Fusion.Ranked.{score, IsCandidate, rrf-IsCandidate}
use agentic_memory_stack_for.Fusion.Stamped.{
  Among, HasCosine, end_search-HasCosine, ams_score_and_rank-configure,
}

abbrev floats : Floats
floats = record {
  F = ℕ;
  zero = 0;
  one = 1000;
  half = 500;
  quarter = 250;
  tenth = 100;
  of_nat = λ n. 1000 * n;
  plus = λ x y. x + y;
  over = λ x y. 1000 * x / y;
  below = ltb;
}

floats-IsOrder : IsOrder ltb
floats-IsOrder = record { asym = λ x y h. ground arith; trans = λ x y z h g. ground arith }

abbrev hit : String → ℕ → Hit floats
hit id cosine = record { id = some id; score = some cosine; payload = none }

abbrev hits : List (Hit floats)
hits = hit "a" 700 ∷ hit "b" 80 ∷ hit "c" 650 ∷ []

abbrev keywords : Dict ℕ
keywords = ("c", 900) ∷ ("b", 800) ∷ []

abbrev ids : List (Item floats) → List String
ids [] = []
ids (i ∷ is) = i.id ∷ ids is

-- The hit below the threshold is out, and the keyword match goes in front of the better cosine.
keyword_first :
    ids (rrf floats (default_weights floats) keywords [] 100 false hits 5).0 ≡ "c" ∷ "a" ∷ []
unfolding rrf pool_of sort_by insert_by ranks_from rank_positive fused leg_of item_of score_all get
    put
keyword_first = refl

rrf-IsCandidate_example :
    let r = rrf floats (default_weights floats) keywords [] 100 false hits 5 in
    (length r.0 ≤ 5)
    × Descending ltb (score floats 100) r.0
    × All (IsCandidate floats 100 hits r.1) r.0
rrf-IsCandidate_example =
    rrf-IsCandidate floats 100 (default_weights floats) keywords [] false floats-IsOrder hits 5

abbrev idle : State floats
idle = record { constants = default_weights floats; last_legs = none; reached = 4; bypassed = 0 }

abbrev found : String → Found floats
found id = record { id = id; cosine = none }

default_mode : mode none ≡ rrf_mode
unfolding mode
default_mode = refl

among :
    Among floats
      (ams_score_and_rank floats false none none hits keywords [] none 5
        (begin_search floats idle)).0
      (found "c" ∷ found "a" ∷ [])
unfolding ams_score_and_rank begin_search mode rrf pool_of sort_by insert_by ranks_from
    rank_positive fused leg_of item_of score_all get put any
among = (refl, (refl, tt))

end_search-HasCosine_example :
    let r =
      ams_score_and_rank floats false none none hits keywords [] none 5
        (begin_search floats idle) in
    let out = end_search floats (found "c" ∷ found "a" ∷ []) r.1 in
    All (HasCosine floats 100 hits) out.0 × (out.1.reached ≡ 5) × (out.1.bypassed ≡ 0)
end_search-HasCosine_example =
    end_search-HasCosine floats false none none hits keywords [] none 5 idle (found "c")
      (found "a" ∷ []) floats-IsOrder default_mode among

-- The constants of the other embedding space.
abbrev configured : State floats
configured = record idle { constants = record { k = 2000; w_bm25 = 400; w_entity = 250 } }

configure_ran : configure floats 2000 400 250 idle ≡ some configured
unfolding configure
configure_ran = refl

ams_score_and_rank-configure_example :
    let r = ams_score_and_rank floats false none none hits keywords [] none 5 idle in
    let q = ams_score_and_rank floats false none none hits keywords [] none 5 configured in
    (q.0 ≡ r.0)
    × (q.1.last_legs ≡ r.1.last_legs)
    × (q.1.constants ≡ record { k = 2000; w_bm25 = 400; w_entity = 250 })
ams_score_and_rank-configure_example =
    ams_score_and_rank-configure floats false none none hits keywords [] none 5 idle configured 2000
      400 250 configure_ran
