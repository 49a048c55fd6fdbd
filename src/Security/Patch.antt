-- ===== src/Security/Patch.antt =====
-- What a metadata patch may write, key by key.
use agentic_memory_stack_for.Prelude.{
  String, ◌≡◌, refl, inl, inr, ◌↔◌, Bool, true, false, not, ◌&&◌, Option, none, some, List, [], ◌∷◌,
  filter, if◌then◌else◌, Bool-cases, All, sym,
}
use agentic_memory_stack_for.Prelude.Text.{mem}
use agentic_memory_stack_for.Payload.{Value, is_text}
use agentic_memory_stack_for.Security.Labels.{
  Checked, ok, http, retrieval_hide_keys, metadata_forbidden_keys, is_subset, hits, is_nil,
  effective_label, allowed_keys, own_keys_only, trusted_patch_keys, authorize_metadata_patch,
}

hits-nil :
    (table keys : List String)
    → (is_nil (hits table keys) ≡ true) ↔ All (λ k. mem k table ≡ false) keys
unfolding hits filter
hits-nil table [] = ((λ h. tt), (λ h. refl))
hits-nil table (k ∷ ks) = elim (Bool-cases (mem k table)) [
  | inl e ↦ rw e ((λ h. cc), (λ h. cc))
  | inr e ↦ rw e ((λ h. (refl, (hits-nil table ks).0 h)), (λ h. (hits-nil table ks).1 h.1))
]

is_subset_iff :
    (keys allowed : List String)
    → (is_subset keys allowed ≡ true) ↔ All (λ k. mem k allowed ≡ true) keys
unfolding is_subset
is_subset_iff [] allowed = ((λ h. tt), (λ h. refl))
is_subset_iff (k ∷ ks) allowed = elim (Bool-cases (mem k allowed)) [
  | inl e ↦
      rw e ((λ h. (refl, (is_subset_iff ks allowed).0 h)), (λ h. (is_subset_iff ks allowed).1 h.1))
  | inr e ↦ rw e ((λ h. cc), (λ h. cc))
]

hits_subset :
    (table keys allowed : List String)
    → (is_subset (hits table keys) allowed ≡ true)
      ↔ All (λ k. mem k table ≡ true → mem k allowed ≡ true) keys
unfolding hits filter is_subset
hits_subset table [] allowed = ((λ h. tt), (λ h. refl))
hits_subset table (k ∷ ks) allowed = elim (Bool-cases (mem k table)) [
  | inl e ↦ rw e elim (Bool-cases (mem k allowed)) [
    | inl a ↦ rw a (
      (λ h. ((λ _. refl), (hits_subset table ks allowed).0 h)),
      (λ h. (hits_subset table ks allowed).1 h.1),
    )
    | inr a ↦ rw a ((λ h. cc), (λ h. h.0 refl))
  ]
  | inr e ↦ rw e (
    (λ h. ((λ (x : false ≡ true). cc), (hits_subset table ks allowed).0 h)),
    (λ h. (hits_subset table ks allowed).1 h.1),
  )
]

-- A proven trusted actor writes its own keys only.
abbrev pub OwnKeys : Option (List String) → List String → Type 0
OwnKeys table keys = (own : List String) → table ≡ some own → All (λ k. mem k own ≡ true) keys

some-inj : (x y : List String) → some x ≡ some y → x ≡ y
some-inj x y h = cc

own_keys_only_lem :
    (table : Option (List String)) (keys : List String)
    → (own_keys_only table keys ≡ ok tt) ↔ OwnKeys table keys
unfolding own_keys_only
own_keys_only_lem none keys = ((λ _. λ own. λ (h : none ≡ some own). cc), (λ _. refl))
own_keys_only_lem (some own) keys = elim (Bool-cases (is_subset keys own)) [
  | inl s ↦ rw s (
    (λ _.
        λ x. λ (h : some own ≡ some x). rw (sym (some-inj own x h)) ((is_subset_iff keys own).0 s)),
    (λ _. refl),
  )
  | inr s ↦ rw s ((λ h. cc), (λ h. let t = (is_subset_iff keys own).1 (h own refl) in cc))
]

guards :
    (a b : Bool) (r : Checked (Unit {0})) (w v : String)
    → ((if a then http 403 w else if not b then http 403 v else r) ≡ ok tt)
      ↔ ((a ≡ false) × (b ≡ true) × (r ≡ ok tt))
guards true b r w v = ((λ h. cc), (λ h. cc))
guards false true r w v = ((λ h. (refl, refl, h)), (λ h. h.2))
guards false false r w v = ((λ h. cc), (λ h. cc))

hidden_lem : (n c : Bool) → ((not n && c) ≡ false) ↔ (c ≡ true → n ≡ true)
hidden_lem true c = ((λ _. λ _. refl), (λ _. refl))
hidden_lem false true = ((λ h. cc), (λ h. sym (h refl)))
hidden_lem false false = ((λ _. λ (h : false ≡ true). cc), (λ _. refl))

-- A metadata patch is authorised exactly when no key of it hides a canonical record, every
-- forbidden key in it is one that the proven label may write, and a proven trusted actor writes
-- its own keys only.
pub authorize_metadata_patch-ok_iff :
    (tier : Value) (actor : Option String) (keys : List String) (verified : Bool)
    → (authorize_metadata_patch tier actor keys verified ≡ ok tt) ↔ (
        (is_text tier "canonical" ≡ true → All (λ k. mem k retrieval_hide_keys ≡ false) keys)
        × All
            (λ k.
              mem k metadata_forbidden_keys ≡ true
              → mem k (allowed_keys (effective_label actor verified)) ≡ true)
            keys
        × OwnKeys (trusted_patch_keys (effective_label actor verified)) keys)
unfolding authorize_metadata_patch
authorize_metadata_patch-ok_iff tier actor keys verified =
    let label = effective_label actor verified in
    let a = is_nil (hits retrieval_hide_keys keys) in
    let c = is_text tier "canonical" in
    let b = is_subset (hits metadata_forbidden_keys keys) (allowed_keys label) in
    let g =
      guards (not a && c) b (own_keys_only (trusted_patch_keys label) keys) "metadata keys"
        "forbidden metadata keys" in
    let hide = hidden_lem a c in
    let n = hits-nil retrieval_hide_keys keys in
    let s = hits_subset metadata_forbidden_keys keys (allowed_keys label) in
    let o = own_keys_only_lem (trusted_patch_keys label) keys in
    (
      (λ h. let p = g.0 h in ((λ t. n.0 (hide.0 p.0 t)), s.0 p.1, o.0 p.2)),
      (λ h. g.1 (hide.1 (λ t. n.1 (h.0 t)), s.1 h.1, o.1 h.2)),
    )
