-- ===== src/Admission/Isolation.antt =====
-- Brand isolation of mem0-server/admission_gate.py: what a search returns, whatever its class.
use mathlib.Core.Bool.{false≢true}
use agentic_memory_stack_for.Prelude.{
  ap, ℕ, String, ◌≡◌, ◌≢◌, refl, inl, inr, true, false, Option, none, some, List, [], ◌∷◌, arith,
  eq_iff, Bool-cases, All, All-append, All-map,
}
use agentic_memory_stack_for.Prelude.Text.{is_empty, lower}
use agentic_memory_stack_for.Prelude.Dict.{Dict}
use agentic_memory_stack_for.Payload.{Payload, Value, field}
use agentic_memory_stack_for.Admission.Policy.{
  Floats, Hit, Policy, Settings, Clock, Reason, request_brand, result_brand, opts_in,
  default_policy_for_class, tier_reason, stamp_reason, scope_reason, class_reason, evaluate,
}
use agentic_memory_stack_for.Admission.Apply.{
  Fetcher, Gate, verdict, settle, admit_all, normal_class, resolve, apply_admission,
}

-- The record is neutral, or of the brand that the request names, or the request names none and
-- opted in to every brand.
pub data IsReachable (shared : List String) (scope meta : Payload) : Type 0 where
  neutral : result_brand shared meta ≡ "" → IsReachable shared scope meta
  same_brand :
      request_brand scope ≢ ""
      → lower (request_brand scope) ≡ lower (result_brand shared meta)
      → IsReachable shared scope meta
  opted_in :
      request_brand scope ≡ ""
      → opts_in (field "allow_cross_brand" scope) ≡ true
      → IsReachable shared scope meta

empty_of : (s : String) → is_empty s ≡ true → s ≡ ""
empty_of String.[] h = refl
empty_of (String.◌∷◌ c s) h = cc

filled_of : (s : String) → is_empty s ≡ false → s ≢ ""
filled_of String.[] h = λ e. cc
filled_of (String.◌∷◌ c s) h = λ e. false≢true (ap is_empty e)

module _ (floats : Floats) where
  open floats use {F}

  scope_reason-IsReachable :
      (p : Policy F) (r : Hit F) (scope : Payload)
      → scope_reason floats p r scope ≡ none
      → IsReachable p.shared_brands scope r.metadata
  unfolding scope_reason
  scope_reason-IsReachable p r scope h =
      let req = request_brand scope in
      let res = result_brand p.shared_brands r.metadata in
      elim (Bool-cases (is_empty res)) [
        | inl bare ↦ neutral (empty_of res bare)
        | inr branded ↦ elim (Bool-cases (is_empty req)) [
          | inl open_scope ↦ opted_in (empty_of req open_scope) (ground arith)
          | inr named ↦
              same_brand (filled_of req named) (ground (arith, eq_iff (lower req) (lower res)))
        ]
      ]

  -- An admitted result passed every group of tests.
  pub record IsPassed (clock : Clock) (p : Policy F) (scope : Payload) (query_class : String)
      (tiers : Option (Dict Value)) (r : Hit F) : Type 0 where
    pub tier_ok : tier_reason floats p r.metadata ≡ none
    pub stamp_ok : stamp_reason floats p r.metadata tiers ≡ none
    pub scope_ok : scope_reason floats p r scope ≡ none
    pub class_ok : class_reason floats clock p r query_class ≡ none

  pub evaluate-IsPassed :
      (clock : Clock) (p : Policy F) (r : Hit F) (scope : Payload) (query_class : String)
      (tiers : Option (Dict Value))
      → evaluate floats clock p r scope query_class tiers ≡ none
      → IsPassed clock p scope query_class tiers r
  unfolding evaluate
  evaluate-IsPassed clock p r scope qc tiers h = ground arith

  module _ (clock : Clock) (today : String) (policy : Policy F) (scope : Payload)
      (query_class : String) (tiers : Option (Dict Value)) where
    abbrev Passed : Hit F → Type 0
    Passed = IsPassed clock policy scope query_class tiers

    settle-Passed :
        (r : Hit F) (o : Option Reason) (s : List (Hit F) × Gate floats)
        → verdict floats clock today policy scope query_class tiers r ≡ o
        → All Passed s.0
        → All Passed (settle floats clock today policy scope query_class tiers r o s).0
    unfolding settle
    settle-Passed r none (kept, g) e h =
        All-append Passed kept (r ∷ []) h
          (evaluate-IsPassed clock policy r scope query_class tiers e, tt)
    settle-Passed r (some reason) (kept, g) e h = h

    pub admit_all-Passed :
        (rs : List (Hit F)) (s : List (Hit F) × Gate floats)
        → All Passed s.0
        → All Passed (admit_all floats clock today policy scope query_class tiers rs s).0
    unfolding admit_all
    admit_all-Passed [] s h = h
    admit_all-Passed (r ∷ rs) s h = admit_all-Passed rs _ (settle-Passed r _ s refl h)

shared_brands-default :
    {F : Type 0} (s : Settings F) (qc : String)
    → (default_policy_for_class s qc).shared_brands ≡ s.shared
unfolding default_policy_for_class
shared_brands-default s qc = ground arith

-- Every result that a search returns is brand-neutral, or of the brand that the request names, or
-- the request names no brand and opted in to every brand; whatever the query class.
pub apply_admission-IsReachable :
    (floats : Floats) (settings : Settings floats.F) (clock : Clock) (fetcher : Fetcher)
    (monotonic : ℕ) (today : String) (results : List (Hit floats.F)) (scope : Payload)
    (query_class : String) (g : Gate floats)
    → All
        (λ r. IsReachable settings.shared scope r.metadata)
        (apply_admission floats settings clock fetcher monotonic today results scope query_class
          g).0
unfolding apply_admission
apply_admission-IsReachable floats settings clock fetcher monotonic today results scope query_class
      g =
    let qc = normal_class floats query_class in
    let policy = default_policy_for_class settings qc in
    let (tiers, cache) = resolve floats fetcher monotonic policy results g.cache in
    All-map (IsPassed floats clock policy scope qc tiers)
      (λ (r : Hit floats.F). IsReachable settings.shared scope r.metadata) _
      (λ r h.
        rw (shared_brands-default settings qc) at
          (scope_reason-IsReachable floats policy r scope h.scope_ok))
      (admit_all-Passed floats clock today policy scope qc tiers results
        ([], record g { cache = cache }) tt)
