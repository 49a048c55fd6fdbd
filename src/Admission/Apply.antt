-- ===== src/Admission/Apply.antt =====
-- mem0-server/admission_gate.py: `apply_admission` over a result list, with its counters, the log
-- of rejections, and the cached lookup of the tiers that contradiction stamps point at. The counters'
-- day is a parameter.
use agentic_memory_stack_for.Prelude.Codes.{str_lt}
use agentic_memory_stack_for.Prelude.{
  ℕ, suc, ◌+◌, String, Bool, false, not, ◌&&◌, Option, none, some, List, [], ◌∷◌, ◌++◌, ◌==◌, ltb,
  if◌then◌else◌, is_some,
}
use agentic_memory_stack_for.Prelude.Text.{is_empty, strip, lower}
use agentic_memory_stack_for.Prelude.Dict.{Dict, get, put}
use agentic_memory_stack_for.Payload.{Payload, Value, text, truthy, field, value_text}
use agentic_memory_stack_for.Admission.Policy.{
  Floats, Hit, Policy, Settings, Clock, Reason, tier_disallowed, superseded_by,
  contradicts_canonical, brand_mismatch, brand_scope_required, brand_coherence, recency,
  relevance_floor, default_policy_for_class, evaluate,
}

-- `admission_rejection_stats`
pub record Rejections : Type 0 where
  pub date : Option String
  pub total : ℕ
  pub reasons : Dict ℕ

-- `stamp_resolution_stats`
pub record Stamps : Type 0 where
  pub date : Option String
  pub unresolved : ℕ
  pub ignored : ℕ

-- The family of a reason: the text before its colon.
unfoldable pub prefix : Reason → String
prefix tier_disallowed = "tier_disallowed"
prefix superseded_by = "superseded_by"
prefix contradicts_canonical = "contradicts_canonical"
prefix brand_mismatch = "brand_mismatch"
prefix brand_scope_required = "brand_scope_required"
prefix brand_coherence = "brand_coherence"
prefix recency = "recency"
prefix relevance_floor = "relevance_floor"

-- `_stats_family`: the response's key for a reason.
unfoldable pub stats_family : Reason → String
stats_family tier_disallowed = "rejected_tier_disallowed"
stats_family superseded_by = "rejected_superseded"
stats_family contradicts_canonical = "rejected_contradicted"
stats_family brand_mismatch = "rejected_brand_mismatch"
stats_family brand_scope_required = "rejected_brand_scoped"
stats_family brand_coherence = "rejected_brand_coherence"
stats_family recency = "rejected_recency"
stats_family relevance_floor = "rejected_relevance_floor"

abbrev pub count_of : String → Dict ℕ → ℕ
count_of k d = elim (get k d) [ none ↦ 0 | some n ↦ n ]

-- `d[k] = d.get(k, 0) + 1`
abbrev pub bump : String → Dict ℕ → Dict ℕ
bump k d = put k (suc (count_of k d)) d

is_today : String → Option String → Bool
is_today today none = false
is_today today (some d) = d == today

-- The counters start again when the day changes.
unfoldable pub roll : String → Rejections → Rejections
unfolding is_today
roll today s =
    if is_today today s.date then s else record { date = some today; total = 0; reasons = [] }

unfoldable pub count_rejection : String → Reason → Rejections → Rejections
count_rejection today reason s =
    let r = roll today s in
    record r { total = suc r.total; reasons = bump (prefix reason) r.reasons }

unfoldable pub roll_stamps : String → Stamps → Stamps
unfolding is_today
roll_stamps today s =
    if is_today today s.date then s else record { date = some today; unresolved = 0; ignored = 0 }

-- `_count_stamp`, at `stamp_ignored_not_canonical` or `stamp_target_unresolved`.
unfoldable pub count_stamp : String → Bool → Stamps → Stamps
count_stamp today resolved s =
    let r = roll_stamps today s in
    if resolved
    then record r { ignored = suc r.ignored }
    else record r { unresolved = suc r.unresolved }

-- An id's tier with the instant until which it is good.
abbrev pub Cache : Type 0
Cache = Dict (ℕ × Value)

abbrev pub stamp_tier_ttl : ℕ
stamp_tier_ttl = 600000000

-- `_STAMP_TIER_FETCHER`: no fetcher, or a lookup that may raise.
abbrev pub Fetcher : Type 0
Fetcher = Option (List String → Option (Dict Value))

-- `sorted({...})`
unfoldable pub insert_sorted : String → List String → List String
insert_sorted x [] = x ∷ []
insert_sorted x (y ∷ ys) =
    let rest = insert_sorted x ys in
    if x == y then y ∷ ys else if str_lt x y then x ∷ y ∷ ys else y ∷ rest

unfoldable pub sorted_set : List String → List String
unfolding insert_sorted
sorted_set [] = []
sorted_set (x ∷ xs) = insert_sorted x (sorted_set xs)

unfoldable pub fresh_tier : ℕ → Option (ℕ × Value) → Option Value
fresh_tier now none = none
fresh_tier now (some (expiry, tier)) = if ltb now expiry then some tier else none

-- The ids that the cache answers, and those it does not.
unfoldable pub cached : ℕ → Cache → List String → Dict Value
unfolding fresh_tier
cached now cache [] = []
cached now cache (t ∷ ts) =
    let rest = cached now cache ts in
    elim (fresh_tier now (get t cache)) [ none ↦ rest | some v ↦ (t, v) ∷ rest ]

unfoldable pub missing : ℕ → Cache → List String → List String
unfolding fresh_tier
missing now cache [] = []
missing now cache (t ∷ ts) =
    let rest = missing now cache ts in
    if is_some (fresh_tier now (get t cache)) then rest else t ∷ rest

unfoldable pub learn : ℕ → Dict Value → List String → Dict Value × Cache → Dict Value × Cache
learn now found [] (out, cache) = (out, cache)
learn now found (t ∷ ts) (out, cache) =
    learn now found ts
      (put t (field t found) out, put t (now + stamp_tier_ttl, field t found) cache)

unfoldable pub answer :
    ℕ → Option (Dict Value) → List String → Dict Value → Cache → Option (Dict Value) × Cache
unfolding learn
answer now none ids out cache = (some out, cache)
answer now (some found) ids out cache =
    let (out', cache') = learn now found ids (out, cache) in (some out', cache')

unfoldable pub resolve_stamp_tiers : Fetcher → ℕ → Cache → List String → Option (Dict Value) × Cache
unfolding insert_sorted sorted_set fresh_tier cached missing answer
resolve_stamp_tiers none now cache targets = (none, cache)
resolve_stamp_tiers (some fetch) now cache targets =
    let ids = sorted_set targets in
    let out = cached now cache ids in
    let ask = missing now cache ids in
    elim ask [ [] ↦ (some out, cache) | x ∷ xs ↦ answer now (fetch (x ∷ xs)) (x ∷ xs) out cache ]

module _ (floats : Floats) where
  open floats use {F}

  -- The state that a call reads and writes. `stats_out` is the caller's dict.
  pub record Gate : Type 0 where
    pub rejections : Rejections
    pub stamps : Stamps
    pub cache : Cache
    pub stats_out : Dict ℕ
    pub log : List (Value × Reason)
    -- Whether the log can be written.
    pub log_takes : List (Value × Reason) → Value × Reason → Bool

  abbrev pub stamp_of : Hit F → Value
  stamp_of r = field "contradicts_canonical" r.metadata

  unfoldable pub targets : List (Hit F) → List String
  targets [] = []
  targets (r ∷ rs) =
      let rest = targets rs in if truthy (stamp_of r) then value_text (stamp_of r) ∷ rest else rest

  -- `log_rejected`: a line that cannot be written is lost.
  unfoldable pub log_rejected : Value → Reason → Gate → List (Value × Reason)
  log_rejected id reason g =
      if g.log_takes g.log (id, reason) then g.log ++ (id, reason) ∷ [] else g.log

  unfoldable pub reject : String → Hit F → Reason → Gate → Gate
  reject today r reason g = record g {
    rejections = count_rejection today reason g.rejections;
    stats_out = bump (stats_family reason) g.stats_out;
    log = log_rejected (if truthy r.id then r.id else text "unknown") reason g;
  }

  unfoldable pub note_stamp : String → Bool → Option (Dict Value) → Hit F → Gate → Gate
  note_stamp today forensic none r g = g
  note_stamp today forensic (some tiers) r g =
      if truthy (stamp_of r) && not forensic
      then record g {
        stamps = count_stamp today (is_some (get (value_text (stamp_of r)) tiers)) g.stamps;
      }
      else g

  module _ (clock : Clock) (today : String) (policy : Policy F) (scope : Payload)
      (query_class : String) (stamp_tiers : Option (Dict Value)) where
    abbrev pub verdict : Hit F → Option Reason
    verdict r = evaluate floats clock policy r scope query_class stamp_tiers

    unfoldable pub settle : Hit F → Option Reason → List (Hit F) × Gate → List (Hit F) × Gate
    settle r none (kept, g) = (kept ++ r ∷ [], note_stamp today policy.forensic stamp_tiers r g)
    settle r (some reason) (kept, g) = (kept, reject today r reason g)

    -- The loop over the results, from what is admitted so far.
    unfoldable pub admit_all : List (Hit F) → List (Hit F) × Gate → List (Hit F) × Gate
    admit_all [] s = s
    admit_all (r ∷ rs) s = admit_all rs (settle r (verdict r) s)

  -- `(query_class or "durable").strip().lower() or "durable"`
  unfoldable pub normal_class : String → String
  normal_class query_class =
      let qc = lower (strip (if is_empty query_class then "durable" else query_class)) in
      if is_empty qc then "durable" else qc

  unfoldable pub resolve :
      Fetcher → ℕ → Policy F → List (Hit F) → Cache → Option (Dict Value) × Cache
  unfolding targets
  resolve fetcher now policy results cache =
      if policy.forensic
      then (none, cache)
      else (let ts = targets results in
          elim ts [
            | [] ↦ (none, cache)
            | t ∷ rest ↦ resolve_stamp_tiers fetcher now cache (t ∷ rest)
          ])

  unfoldable pub apply_admission :
      Settings F
      → Clock
      → Fetcher
      → ℕ
      → String
      → List (Hit F)
      → Payload
      → String
      → Gate
      → List (Hit F) × Gate
  apply_admission settings clock fetcher monotonic today results scope query_class g =
      let qc = normal_class query_class in
      let policy = default_policy_for_class settings qc in
      let (tiers, cache) = resolve fetcher monotonic policy results g.cache in
      admit_all clock today policy scope qc tiers results ([], record g { cache = cache })
