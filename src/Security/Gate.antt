-- ===== src/Security/Gate.antt =====
-- A mutation of a canonical or an insight record needs a proven label or a signed token.
use agentic_memory_stack_for.Prelude.{
  ℕ, String, ◌≡◌, refl, sym, ◌⊎◌, inl, inr, Bool, true, false, ◌&&◌, Option, List, arith, eq_iff,
  is_some, ◌==◌, if◌then◌else◌, &&-left, &&-right,
}
use agentic_memory_stack_for.Prelude.Text.{mem}
use agentic_memory_stack_for.Payload.{Value, Payload, text, field, is_null}
use agentic_memory_stack_for.Security.Labels.{
  Checked, ok, http, insight_allowed_actors, trusted_patch_keys, normalize_label,
}
use agentic_memory_stack_for.Security.Replay.{Line}
use agentic_memory_stack_for.Security.Token.{
  found, fetch_current_tier, Server, Headers, validate_insight_actor, gate_tier, on_tier, with_tier,
  tier_for_caller, assert_writable,
}
use agentic_memory_stack_for.Security.Valid.{Signed, NewNonce, validate_hmac_user_direct-Signed}

if_ok :
    (b : Bool) (x y : Checked (List Line)) (s : List Line)
    → (if b then x else y) ≡ ok s
    → (b ≡ true) ⊎ (y ≡ ok s)
if_ok true x y s e = inl refl
if_ok false x y s e = inr e

passes {ℓ} :
    {A : Type ℓ} (b : Bool) (code : ℕ) (why : String) (x : Checked A) (s : A)
    → (if b then http code why else x) ≡ ok s
    → x ≡ ok s
passes true code why x s e = absurd cc
passes false code why x s e = e

ok-inj : (t u : Value) → ok t ≡ ok u → t ≡ u
ok-inj t u e = cc

-- The record is canonical or an insight; one without a tier counts as canonical.
abbrev pub IsProtected : Payload → Type 0
IsProtected payload =
    (is_null (field "tier" payload) ≡ true)
    ⊎ (field "tier" payload ≡ text "canonical")
    ⊎ (field "tier" payload ≡ text "insight")

module _ (server : Server) (now : ℕ) (actor : Option String) (memory_id action reason : String)
    (h : Headers) (service_verified : Bool) where
  -- The service key proved a label that may make this mutation without a token.
  abbrev pub ByLabel : Payload → Type 0
  ByLabel payload =
      (service_verified ≡ true)
      × (((action ≡ "patch_metadata")
            × (is_some (trusted_patch_keys (normalize_label actor)) ≡ true))
          ⊎ ((field "tier" payload ≡ text "insight")
              × (mem (normalize_label actor) insight_allowed_actors ≡ true)))

  abbrev pub ByToken : List Line → List Line → Type 0
  ByToken store next =
      Signed server now memory_id action reason h
      × NewNonce server now memory_id action reason h store next

  abbrev bypass : Bool
  bypass =
      (action == "patch_metadata")
      && service_verified
      && is_some (trusted_patch_keys (normalize_label actor))

  bypass-ByLabel :
      bypass ≡ true
      → (service_verified ≡ true)
        × (action ≡ "patch_metadata")
        × (is_some (trusted_patch_keys (normalize_label actor)) ≡ true)
  bypass-ByLabel e = ground (arith, eq_iff action "patch_metadata")

  gate_tier-canonical :
      (store next : List Line)
      → gate_tier server now
          (text "canonical")
          actor
          memory_id
          action
          reason
          h
          service_verified
          store
        ≡ ok next
      → (bypass ≡ true) ⊎ ByToken store next
  unfolding gate_tier
  gate_tier-canonical store next e = elim (if_ok bypass (ok store) _ next e) [
    | inl b ↦ inl b
    | inr v ↦
        inr (validate_hmac_user_direct-Signed server now memory_id action reason h store next v)
  ]

  abbrev consolidator : Bool
  consolidator = service_verified && mem (normalize_label actor) insight_allowed_actors

  gate_tier-insight :
      (store next : List Line)
      → gate_tier server now (text "insight") actor memory_id action reason h service_verified store
        ≡ ok next
      → (bypass ≡ true) ⊎ (consolidator ≡ true) ⊎ ByToken store next
  unfolding gate_tier validate_insight_actor
  gate_tier-insight store next e = elim (if_ok bypass (ok store) _ next e) [
    | inl b ↦ inl b
    | inr v ↦ elim (if_ok consolidator (ok store) _ next v) [
      | inl b ↦ inr (inl b)
      | inr w ↦
          inr (
            inr
              (validate_hmac_user_direct-Signed server now memory_id action reason h store next w))
    ]
  ]

  with_tier-ok :
      (tier : Value) (r : Checked (List Line)) (got : Value) (next : List Line)
      → with_tier tier r ≡ ok (got, next)
      → r ≡ ok next
  with_tier-ok tier (ok s) got next e = cc
  with_tier-ok tier (http c w) got next e = absurd cc

  on_tier-ok :
      (r : Checked Value) (store next : List Line) (got tier : Value)
      → r ≡ ok tier
      → on_tier server now r actor memory_id action reason h service_verified store ≡ ok (got, next)
      → with_tier
          (tier_for_caller tier)
          (gate_tier server now tier actor memory_id action reason h service_verified store)
        ≡ ok (got, next)
  unfolding on_tier
  on_tier-ok (ok t) store next got tier f e = rw (sym (ok-inj t tier f)) e
  on_tier-ok (http c w) store next got tier f e = absurd cc

  assert_writable-tier :
      (payload : Payload) (store next : List Line) (got tier : Value)
      → assert_writable server now
          (found payload)
          actor
          memory_id
          action
          reason
          h
          service_verified
          store
        ≡ ok (got, next)
      → fetch_current_tier (found payload) ≡ ok tier
      → gate_tier server now tier actor memory_id action reason h service_verified store ≡ ok next
  unfolding assert_writable
  assert_writable-tier payload store next got tier e f =
      with_tier-ok (tier_for_caller tier) _ got next
        (on_tier-ok (fetch_current_tier (found payload)) store next got tier f (passes _ _ _ _ _ e))

  bypassed :
      (payload : Payload) (store next : List Line)
      → bypass ≡ true
      → ByLabel payload ⊎ ByToken store next
  bypassed payload store next b = let l = bypass-ByLabel b in inl (l.0, inl (l.1, l.2))

  from_canonical :
      (payload : Payload) (store next : List Line) (got : Value)
      → assert_writable server now
          (found payload)
          actor
          memory_id
          action
          reason
          h
          service_verified
          store
        ≡ ok (got, next)
      → fetch_current_tier (found payload) ≡ ok (text "canonical")
      → ByLabel payload ⊎ ByToken store next
  from_canonical payload store next got e f =
      elim (gate_tier-canonical store next
        (assert_writable-tier payload store next got (text "canonical") e f)) [
          | inl b ↦ bypassed payload store next b
          | inr t ↦ inr t
        ]

  -- A mutation of a canonical or an insight record, or of one without a tier, that the gate lets
  -- through has a proven label that may make it, or a token that signs it now and whose nonce is
  -- new.
  pub assert_writable-protected :
      (payload : Payload) (store next : List Line) (got : Value)
      → IsProtected payload
      → assert_writable server now
          (found payload)
          actor
          memory_id
          action
          reason
          h
          service_verified
          store
        ≡ ok (got, next)
      → ByLabel payload ⊎ ByToken store next
  unfolding fetch_current_tier
  assert_writable-protected payload store next got (inl n) e =
      from_canonical payload store next got e (rw n refl)
  assert_writable-protected payload store next got (inr (inl c)) e =
      from_canonical payload store next got e (rw c refl)
  assert_writable-protected payload store next got (inr (inr i)) e =
      elim (gate_tier-insight store next
        (assert_writable-tier payload store next got (text "insight") e (rw i refl))) [
          | inl b ↦ bypassed payload store next b
          | inr (inl c) ↦ inl (&&-left _ _ c, inr (i, &&-right _ _ c))
          | inr (inr t) ↦ inr t
        ]
