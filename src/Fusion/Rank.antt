-- ===== src/Fusion/Rank.antt =====
-- mem0-server/fusion.py: `rrf`, `ams_score_and_rank` and the bookkeeping of a search. A float is a value
-- of an abstract type with the operations that the code uses, and mem0's own formula is a parameter.
use agentic_memory_stack_for.Prelude.{
  ℕ, suc, String, Bool, Option, none, some, List, [], ◌∷◌, ◌==◌, if◌then◌else◌, map, take,
}
use agentic_memory_stack_for.Prelude.Text.{strip, lower}
use agentic_memory_stack_for.Prelude.Dict.{Dict, get, put}
use agentic_memory_stack_for.Prelude.Sorting.{sort_by}
use agentic_memory_stack_for.Payload.{Payload}

pub record Floats : Type 1 where
  pub F : Type 0
  pub zero : F
  pub one : F
  pub half : F
  pub quarter : F
  pub tenth : F
  pub of_nat : ℕ → F
  pub plus : F → F → F
  pub over : F → F → F
  pub below : F → F → Bool

pub data Mode : Type 0 where
  rrf_mode mem0_mode : Mode

-- `MEM0_FUSION`, where it is set.
unfoldable pub mode : Option String → Mode
unfolding strip lower
mode none = rrf_mode
mode (some m) = if lower (strip m) == "mem0" then mem0_mode else rrf_mode

module _ (floats : Floats) where
  open floats use {F, below, plus, over, of_nat}

  pub record Weights : Type 0 where
    pub k : F
    pub w_bm25 : F
    pub w_entity : F

  -- `RRF_K`, `RRF_W_BM25` and `RRF_W_ENTITY` as the module sets them. `rrf` takes its defaults from
  -- here, for Python evaluates them where the function is defined.
  abbrev pub default_weights : Weights
  default_weights = record { k = floats.one; w_bm25 = floats.half; w_entity = floats.quarter }

  -- A row of mem0's dense pool.
  pub record Hit : Type 0 where
    pub id : Option String
    pub score : Option F
    pub payload : Option Payload

  pub record Entry : Type 0 where
    pub id : String
    pub cosine : F
    pub payload : Option Payload

  abbrev pub or_zero : Option F → F
  or_zero none = floats.zero
  or_zero (some x) = x

  -- The gate on the raw cosine; a row without an id is passed over.
  abbrev pub gate : F → Option String → Hit → List Entry → List Entry
  gate threshold none h rest = rest
  gate threshold (some id) h rest =
      if below (or_zero h.score) threshold
      then rest
      else record { id = id; cosine = or_zero h.score; payload = h.payload } ∷ rest

  unfoldable pub pool_of : F → List Hit → List Entry
  pool_of threshold [] = []
  pool_of threshold (h ∷ hs) = gate threshold h.id h (pool_of threshold hs)

  -- `{id: n + 1 for n, id in enumerate(ids)}`, from `n` on, over `d`.
  unfoldable pub ranks_from : ℕ → List String → Dict ℕ → Dict ℕ
  unfolding put
  ranks_from n [] d = d
  ranks_from n (id ∷ ids) d = ranks_from (suc n) ids (put id (suc n) d)

  abbrev pub ids_of : Dict ℕ → List String
  ids_of [] = []
  ids_of ((id, n) ∷ d) = id ∷ ids_of d

  -- The ids of the pool with their values of a leg, those above zero.
  abbrev positive : Dict F → List String → List (String × F)
  positive values [] = []
  positive values (id ∷ ids) =
      let rest = positive values ids in
      let v = or_zero (get id values) in if below floats.zero v then (id, v) ∷ rest else rest

  abbrev names : List (String × F) → List String
  names [] = []
  names ((id, v) ∷ vs) = id ∷ names vs

  unfoldable pub rank_positive : Dict F → List String → Dict ℕ
  unfolding sort_by ranks_from get
  rank_positive values ids =
      ranks_from 0 (names (sort_by below (λ (p : String × F). p.1) (positive values ids))) []

  -- What is recorded of a candidate; mem0's own formula leaves the cosine only.
  pub record Ranks : Type 0 where
    pub rank_dense : ℕ
    pub rank_bm25 : Option ℕ
    pub rank_entity : Option ℕ
    pub bm25 : F
    pub entity_boost : F
    pub score : F

  pub record Leg : Type 0 where
    pub cosine : F
    pub ranks : Option Ranks

  pub record Details : Type 0 where
    pub leg : Leg
    pub weights : Weights
    pub threshold : F

  pub record Item : Type 0 where
    pub id : String
    pub score : F
    pub payload : Option Payload
    pub score_details : Option Details

  abbrev or_rank : Option ℕ → ℕ
  or_rank none = 0
  or_rank (some n) = n

  abbrev term : Weights → F → Option ℕ → F → F
  term w weight none raw = raw
  term w weight (some rank) raw = plus raw (over weight (plus w.k (of_nat rank)))

  -- The sum over the legs by its greatest value, at most one.
  unfoldable pub fused : Weights → ℕ → Option ℕ → Option ℕ → F
  fused w rank_dense rank_bm25 rank_entity =
      let norm = over (plus (plus floats.one w.w_bm25) w.w_entity) (plus w.k floats.one) in
      let raw =
        term w w.w_entity rank_entity
          (term w w.w_bm25 rank_bm25 (over floats.one (plus w.k (of_nat rank_dense)))) in
      let score = over raw norm in if below floats.one score then floats.one else score

  module _ (w : Weights) (bm25_scores entity_boosts : Dict F) (threshold : F) (explain : Bool) where
    unfoldable pub leg_of : Dict ℕ → Dict ℕ → Dict ℕ → Entry → Leg
    unfolding fused get
    leg_of dense bm25 entity e =
        let n = or_rank (get e.id dense) in
        record {
          cosine = e.cosine;
          ranks = some (record {
            rank_dense = n;
            rank_bm25 = get e.id bm25;
            rank_entity = get e.id entity;
            bm25 = or_zero (get e.id bm25_scores);
            entity_boost = or_zero (get e.id entity_boosts);
            score = fused w n (get e.id bm25) (get e.id entity);
          });
        }

    abbrev score_of : Option Ranks → F
    score_of none = floats.zero
    score_of (some r) = r.score

    unfoldable pub item_of : Leg → Entry → Item
    item_of leg e = record {
      id = e.id;
      score = score_of leg.ranks;
      payload = e.payload;
      score_details =
          if explain then some (record { leg = leg; weights = w; threshold = threshold }) else none;
    }

    -- The loop over the pool: the items in its order, and the legs.
    unfoldable pub score_all : (Entry → Leg) → List Entry → Dict Leg → List Item × Dict Leg
    unfolding item_of put
    score_all leg [] legs = ([], legs)
    score_all leg (e ∷ es) legs =
        let (items, all) = score_all leg es (put e.id (leg e) legs) in
        (item_of (leg e) e ∷ items, all)

    unfoldable pub rrf : List Hit → ℕ → List Item × Dict Leg
    unfolding pool_of sort_by ranks_from rank_positive leg_of score_all
    rrf semantic_results top_k =
        let pool = sort_by below (λ (e : Entry). e.cosine) (pool_of threshold semantic_results) in
        let dense = ranks_from 0 (map (λ (e : Entry). e.id) pool) [] in
        let bm25 = rank_positive bm25_scores (ids_of dense) in
        let entity = rank_positive entity_boosts (ids_of dense) in
        let (items, legs) = score_all (leg_of dense bm25 entity) pool [] in
        (take top_k (sort_by below (λ (i : Item). i.score) items), legs)
