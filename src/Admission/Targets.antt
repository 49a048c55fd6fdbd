-- ===== src/Admission/Targets.antt =====
-- When `apply_admission` of mem0-server/admission_gate.py lets the contradiction stamp of a result pass.
use mathlib.Core.Bool.{false≢true}
use agentic_memory_stack_for.Prelude.{
  ℕ, String, ◌≡◌, ◌⊎◌, refl, sym, ap, ◌∙◌, inl, inr, arith, true, false, ◌&&◌, Option, none, some,
  List, [], ◌∷◌, eq_refl, All, All-map, Bool-cases,
}
use agentic_memory_stack_for.Prelude.Text.{mem}
use agentic_memory_stack_for.Prelude.Dict.{Dict}
use agentic_memory_stack_for.Payload.{Value, field, truthy, value_text, is_text}
use agentic_memory_stack_for.Admission.Policy.{Floats, Hit, Policy, stamp_hides}
use agentic_memory_stack_for.Admission.Apply.{
  Cache, Fetcher, resolve_stamp_tiers, stamp_of, targets, resolve,
}
use agentic_memory_stack_for.Admission.Cleared.{IsCleared, resolved-AskedFor, cleared}

-- The stamp is empty, or there is a fetcher and the target is cleared.
abbrev pub StampCleared : Fetcher → ℕ → Cache → List String → Value → Type 0
StampCleared fetcher now cache ts stamp =
    (truthy stamp ≡ false)
    ⊎ ((fetch : List String → Option (Dict Value)) × (fetcher ≡ some fetch)
        × IsCleared fetch now cache (value_text stamp) ts)

hides-none : (stamp : Value) → stamp_hides none stamp ≡ truthy stamp
unfolding stamp_hides
hides-none stamp = refl

hides-some :
    (tiers : Dict Value) (stamp : Value)
    → stamp_hides (some tiers) stamp
      ≡ (truthy stamp && is_text (field (value_text stamp) tiers) "canonical")
unfolding stamp_hides
hides-some tiers stamp = refl

module _ (now : ℕ) (cache : Cache) (stamp : Value) (stamped : truthy stamp ≡ true) where
  resolved_cleared :
      (fetcher : Fetcher) (ts : List String)
      → mem (value_text stamp) ts ≡ true
      → stamp_hides (resolve_stamp_tiers fetcher now cache ts).0 stamp ≡ false
      → StampCleared fetcher now cache ts stamp
  resolved_cleared none ts m h =
      absurd (false≢true (sym h ∙ unfold resolve_stamp_tiers in hides-none stamp ∙ stamped))
  resolved_cleared (some fetch) ts m h =
      let (tiers, e, a) = resolved-AskedFor fetch now cache (value_text stamp) ts in
      let u : is_text (field (value_text stamp) tiers) "canonical" ≡ false =
        ground (arith, hides-some tiers stamp, ap (λ o. stamp_hides o stamp) e, h, stamped) in
      inr (fetch, refl, cleared fetch now cache (value_text stamp) ts tiers m a u)

module _ (floats : Floats) where
  open floats use {F}

  -- The stamp of a result is among the targets.
  abbrev pub IsTarget : List String → Hit F → Type 0
  IsTarget ts r = truthy (stamp_of floats r) ≡ true → mem (value_text (stamp_of floats r)) ts ≡ true

  IsTarget-later :
      (r x : Hit F) (rs : List (Hit F))
      → IsTarget (targets floats rs) x
      → IsTarget (targets floats (r ∷ rs)) x
  unfolding targets mem
  IsTarget-later r x rs h s = elim (Bool-cases (truthy (stamp_of floats r))) [
    | inl e ↦ rw e (ground (arith, h s))
    | inr e ↦ rw e (h s)
  ]

  pub targets-IsTarget : (rs : List (Hit F)) → All (IsTarget (targets floats rs)) rs
  unfolding targets mem
  targets-IsTarget [] = tt
  targets-IsTarget (r ∷ rs) = (
    (λ s. rw s (ground (arith, eq_refl (value_text (stamp_of floats r))))),
    All-map (IsTarget (targets floats rs)) (IsTarget (targets floats (r ∷ rs))) rs
        (λ x h. IsTarget-later r x rs h) (targets-IsTarget rs),
  )

  -- A stamp that the resolution does not let hide its record is empty or cleared.
  pub resolve-StampCleared :
      (fetcher : Fetcher) (now : ℕ) (cache : Cache) (p : Policy F) (results : List (Hit F))
      (r : Hit F)
      → p.forensic ≡ false
      → IsTarget (targets floats results) r
      → stamp_hides (resolve floats fetcher now p results cache).0 (stamp_of floats r) ≡ false
      → StampCleared fetcher now cache (targets floats results) (stamp_of floats r)
  unfolding resolve
  resolve-StampCleared fetcher now cache p results r f m h =
      elim (Bool-cases (truthy (stamp_of floats r))) [
        | inr e ↦ inl e
        | inl e ↦ picked e (targets floats results) (m e) (rw f at h)
      ]
    where
      picked :
          truthy (stamp_of floats r) ≡ true
          → (ts : List String) → mem (value_text (stamp_of floats r)) ts ≡ true
          → stamp_hides
              (elim ts as (λ _. Option (Dict Value) × Cache) [
                | [] ↦ (none, cache)
                | t ∷ rest ↦ resolve_stamp_tiers fetcher now cache (t ∷ rest)
              ]).0
              (stamp_of floats r)
            ≡ false
          → StampCleared fetcher now cache ts (stamp_of floats r)
      picked e [] m h = absurd (false≢true (unfold mem in m))
      picked e (t ∷ ts) m h = resolved_cleared now cache (stamp_of floats r) e fetcher (t ∷ ts) m h
