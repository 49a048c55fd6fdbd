-- ===== src/Admission/Hidden.antt =====
-- What a supersession does to the searches of mem0-server/admission_gate.py: a full one hides the
-- record outside the history class, a partial one changes no verdict.
use mathlib.Core.Path.{subst}
use agentic_memory_stack_for.Prelude.{
  ℕ, String, ◌≡◌, ◌≢◌, refl, Bool, true, false, Option, none, some, List, [], arith, eq_iff,
  if◌then◌else◌, ◌∙◌, All, All-both, All-filter, sym,
}
use agentic_memory_stack_for.Prelude.Text.{is_empty, lower, mem, strip, lower_char, translate}
use agentic_memory_stack_for.Prelude.Text.Laws.{lower_idem}
use agentic_memory_stack_for.Prelude.Dict.{Dict, update}
use agentic_memory_stack_for.Payload.{Payload, Value, field, truthy}
use agentic_memory_stack_for.Supersession.Ids.{norm_id, is_memory_id-filled}
use agentic_memory_stack_for.Supersession.Store.{PayloadStore}
use agentic_memory_stack_for.Supersession.Transaction.{
  Line, Body, done, World, supersede_payload, run_supersede,
}
use agentic_memory_stack_for.Supersession.Effect.{field-supersede_payload, supersede-IsWritten}
use agentic_memory_stack_for.Supersession.Matrix.{precheck-none_iff}
use agentic_memory_stack_for.Supersession.Frame.{IsFramed-of_written, superseded_by-full}
use agentic_memory_stack_for.Admission.Apply.{
  Cache, Fetcher, Gate, normal_class, targets, resolve, apply_admission,
}
use agentic_memory_stack_for.Admission.Targets.{
  StampCleared, IsTarget, targets-IsTarget, resolve-StampCleared,
}
use agentic_memory_stack_for.Admission.Counting.{admit_all-filter}
use agentic_memory_stack_for.Admission.Isolation.{IsPassed, admit_all-Passed}
use agentic_memory_stack_for.Admission.Policy.{
  Floats, Hit, Policy, Settings, Clock, result_brand, stamp_hides, created,
  default_policy_for_class, tier_reason, stamp_reason, scope_reason, class_reason, evaluate,
}

-- The class that `default_policy_for_class` looks up.
abbrev pub class_of : String → String
class_of query_class = lower (if is_empty query_class then "durable" else query_class)

forensic_false :
    {F : Type 0} (s : Settings F) (qc : String)
    → class_of qc ≢ "history"
    → (default_policy_for_class s qc).forensic ≡ false
unfolding default_policy_for_class
forensic_false s qc h = ground (arith, eq_iff (class_of qc) "history")

class_of-normal_class :
    (floats : Floats) (qc : String) → class_of (normal_class floats qc) ≡ normal_class floats qc
unfolding normal_class
class_of-normal_class floats qc =
    normal (lower (strip (if is_empty qc then "durable" else qc))) (lower_idem _)
  where
    normal :
        (t : String)
        → lower t ≡ t
        → class_of (if is_empty t then "durable" else t) ≡ (if is_empty t then "durable" else t)
    normal String.[] e = unfold lower lower_char translate in refl
    normal (String.◌∷◌ c t) e = e

module _ (floats : Floats) where
  open floats use {F}

  -- A record with a winner is rejected by every policy but a forensic one.
  superseded-rejected :
      (clock : Clock) (p : Policy F) (r : Hit F) (scope : Payload) (qc : String)
      (tiers : Option (Dict Value))
      → p.forensic ≡ false
      → truthy (field "superseded_by" r.metadata) ≡ true
      → evaluate floats clock p r scope qc tiers ≢ none
  unfolding evaluate stamp_reason
  superseded-rejected clock p r scope qc tiers f t = ground arith

  -- No other record has replaced the result, and its contradiction stamp is empty or cleared.
  pub record IsCurrent (fetcher : Fetcher) (now : ℕ) (cache : Cache) (ts : List String) (r : Hit F)
      : Type 0 where
    pub not_superseded : truthy (field "superseded_by" r.metadata) ≡ false
    pub stamp_cleared : StampCleared fetcher now cache ts (field "contradicts_canonical" r.metadata)

  unhidden :
      (p : Policy F) (tiers : Option (Dict Value)) (r : Hit F)
      → p.forensic ≡ false
      → stamp_reason floats p r.metadata tiers ≡ none
      → (truthy (field "superseded_by" r.metadata) ≡ false)
        × (stamp_hides tiers (field "contradicts_canonical" r.metadata) ≡ false)
  unfolding stamp_reason
  unhidden p tiers r f h = ground arith

  -- When the normalised class is not history, a search returns no superseded record, and none with
  -- a contradiction stamp, unless there is a fetcher and the cache has a good tier of the stamp's
  -- target that is not canonical, or has no good one and a lookup of targets of the search, this
  -- one among them, failed or told a tier of it that is not canonical.
  pub apply_admission-IsCurrent :
      (settings : Settings F) (clock : Clock) (fetcher : Fetcher) (monotonic : ℕ) (today : String)
      (results : List (Hit F)) (scope : Payload) (query_class : String) (g : Gate floats)
      → normal_class floats query_class ≢ "history"
      → All
          (IsCurrent fetcher monotonic g.cache (targets floats results))
          (apply_admission floats settings clock fetcher monotonic today results scope query_class
            g).0
  unfolding apply_admission
  apply_admission-IsCurrent settings clock fetcher monotonic today results scope query_class g h =
      let qc = normal_class floats query_class in
      let policy = default_policy_for_class settings qc in
      let (tiers, cache) = resolve floats fetcher monotonic policy results g.cache in
      let plain : policy.forensic ≡ false =
        forensic_false settings qc (rw (class_of-normal_class floats query_class) h) in
      let start : List (Hit F) × Gate floats = ([], record g { cache = cache }) in
      All-both (IsPassed floats clock policy scope qc tiers)
        (IsTarget floats (targets floats results))
        (IsCurrent fetcher monotonic g.cache (targets floats results)) _
        (λ r x m.
          let u = unhidden policy tiers r plain x.stamp_ok in
          record {
            not_superseded = u.0;
            stamp_cleared =
                resolve-StampCleared floats fetcher monotonic g.cache policy results r plain m u.1;
          })
        (admit_all-Passed floats clock today policy scope qc tiers results start tt)
        (subst (All (IsTarget floats (targets floats results)))
          (sym (admit_all-filter floats clock today policy scope qc tiers results start))
          (All-filter (IsTarget floats (targets floats results)) _ results
            (targets-IsTarget floats results)))

  -- After a full supersession that is done and no repetition, the policies of every class but
  -- history reject the record, whatever the request's scope, as long as the search reads the
  -- `superseded_by` that the store now has.
  pub superseded_hidden :
      (b : PayloadStore) (accepts : Line → Bool) (mid winner_id : String)
      (detail reason source : Option String) (shared_brands : List String) (now_iso : String)
      (body : Body) (w w' : World b accepts)
      → run_supersede b accepts mid winner_id "full" detail reason source shared_brands now_iso w
        ≡ (done body, w')
      → body.noop ≡ false
      → (after : Payload) × (b.read (norm_id mid) w'.store ≡ some (some after))
        × ((settings : Settings F) (clock : Clock) (r : Hit F) (scope : Payload) (qc : String)
              (tiers : Option (Dict Value))
            → class_of qc ≢ "history"
            → field "superseded_by" r.metadata ≡ field "superseded_by" after
            → evaluate floats clock (default_policy_for_class settings qc) r scope qc tiers ≢ none)
  superseded_hidden b accepts mid winner_id detail reason source shared_brands now_iso body w w' h
        f =
      let (loser, winner, x) =
        supersede-IsWritten b accepts mid winner_id "full" detail reason source shared_brands
          now_iso body w w' h f in
      let fr =
        IsFramed-of_written b accepts mid winner_id "full" detail reason source shared_brands
          now_iso w w' loser winner x in
      let a =
        (precheck-none_iff mid winner_id loser winner "full" detail shared_brands reason).0
          x.passed in
      let named = superseded_by-full loser winner_id detail now_iso in
      (
        _,
        fr.is_now,
        (λ settings clock r scope qc tiers n e.
            superseded-rejected clock (default_policy_for_class settings qc) r scope qc tiers
              (forensic_false settings qc n)
              (rw (e ∙ named) (rw (is_memory_id-filled winner_id a.request.winner_is_id) refl))),
      )

  created-same :
      (p q : Payload) (v : Value)
      → field "created_at" p ≡ field "created_at" q
      → created p v ≡ created q v
  created-same p q v e = rw e refl

  -- A partial supersession changes no verdict of any policy on the record.
  evaluate-partial :
      (loser : Payload) (winner_id : String) (detail : Option String) (now_iso : String)
      (clock : Clock) (p : Policy F) (r : Hit F) (scope : Payload) (qc : String)
      (tiers : Option (Dict Value))
      → let after = update (supersede_payload loser winner_id "partial" detail now_iso) loser in
        evaluate floats clock p (record r { metadata = after }) scope qc tiers
        ≡ evaluate floats clock p (record r { metadata = loser }) scope qc tiers
  unfolding evaluate tier_reason stamp_reason scope_reason class_reason result_brand mem
  evaluate-partial loser winner_id detail now_iso clock p r scope qc tiers =
      let kept = field-supersede_payload loser winner_id "partial" detail now_iso in
      rw
        (
          kept "tier" refl,
          kept "superseded_by" refl,
          kept "contradicts_canonical" refl,
          kept "brand" refl,
          kept "created_at" refl,
        )
        refl
