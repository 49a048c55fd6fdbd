-- ===== src/Admission/Stamps.antt =====
-- What `resolve_stamp_tiers` of mem0-server/admission_gate.py knows of the target of a stamp.
use agentic_memory_stack_for.Prelude.{
  All, eq_refl, ℕ, ◌+◌, String, ◌≡◌, ◌≢◌, refl, ap, ◌∙◌, arith, Bool, true, false, not, ◌&&◌, ◌||◌,
  Option, none, some, List, [], ◌∷◌, ◌==◌, eq_iff, if◌then◌else◌, or_else, is_some,
}
use agentic_memory_stack_for.Prelude.Text.{mem}
use agentic_memory_stack_for.Prelude.Dict.{Dict, get, put, get-put}
use agentic_memory_stack_for.Payload.{Value, field}
use agentic_memory_stack_for.Admission.Apply.{
  Cache, insert_sorted, sorted_set, fresh_tier, cached, missing, learn, stamp_tier_ttl,
}

mem-insert_sorted :
    (t x : String) (ys : List String) → mem t (insert_sorted x ys) ≡ (t == x || mem t ys)
unfolding mem insert_sorted
mem-insert_sorted t x [] = refl
mem-insert_sorted t x (y ∷ ys) = ground (arith, mem-insert_sorted t x ys, eq_iff x y)

pub mem-sorted_set : (t : String) (ts : List String) → mem t (sorted_set ts) ≡ mem t ts
unfolding mem sorted_set
mem-sorted_set t [] = refl
mem-sorted_set t (x ∷ xs) =
    ground (arith, mem-insert_sorted t x (sorted_set xs), mem-sorted_set t xs)

==_comm : (s t : String) → (s == t) ≡ (t == s)
==_comm s t = ground (arith, eq_iff s t, eq_iff t s)

same_either : (b : Bool) (o : Option Value) → o ≡ (if b then o else o)
same_either true o = refl
same_either false o = refl

known :
    (b m : Bool) (o p : Option Value)
    → (b ≡ true → o ≡ p)
    → (if b then or_else o (if m then p else none) else if m then p else none)
      ≡ (if b || m then p else none)
known false m o p h = refl
known true m none none h = ground arith
known true m none (some q) h = absurd (clash (h refl))
  where
    clash : ◌≢◌ {A = Option Value} none (some q)
    clash e = cc
known true m (some v) p h = h refl

learned :
    (b m : Bool) (v w : Value) (o : Option Value)
    → (b ≡ true → v ≡ w)
    → (if m then some w else if b then some v else o) ≡ (if b || m then some w else o)
learned true true v w o h = refl
learned true false v w o h = ap some (h refl)
learned false true v w o h = refl
learned false false v w o h = refl

module _ (now : ℕ) (cache : Cache) where
  abbrev fresh : String → Option Value
  fresh t = fresh_tier now (get t cache)

  get-here :
      (t x : String) (o : Option Value) (rest : Dict Value)
      → get t (elim o as (λ _. Dict Value) [ none ↦ rest | some v ↦ (x, v) ∷ rest ])
        ≡ (if x == t then or_else o (get t rest) else get t rest)
  unfolding get
  get-here t x none rest = same_either (x == t) (get t rest)
  get-here t x (some v) rest = refl

  pub get-cached :
      (t : String) (ids : List String)
      → get t (cached now cache ids) ≡ (if mem t ids then fresh t else none)
  unfolding cached mem
  get-cached t [] = unfold get in refl
  get-cached t (x ∷ xs) =
      get-here t x (fresh x) (cached now cache xs)
      ∙ rw (get-cached t xs, ==_comm t x)
          (known (x == t) (mem t xs) (fresh x) (fresh t) (λ e. ap fresh ((eq_iff x t).0 e)))

  pub mem-missing :
      (t : String) (ids : List String)
      → mem t (missing now cache ids) ≡ (mem t ids && not (is_some (fresh t)))
  unfolding missing mem
  mem-missing t [] = refl
  mem-missing t (x ∷ xs) = ground (arith, mem-missing t xs, eq_iff t x)

pub get-learn :
    (now : ℕ) (found : Dict Value) (t : String) (ask : List String) (out : Dict Value)
    (cache : Cache)
    → get t (learn now found ask (out, cache)).0
      ≡ (if mem t ask then some (field t found) else get t out)
unfolding learn mem
get-learn now found t [] out cache = refl
get-learn now found t (x ∷ xs) out cache =
    get-learn now found t xs (put x (field x found) out)
      (put x (now + stamp_tier_ttl, field x found) cache)
    ∙ rw (get-put x t (field x found) out, ==_comm t x)
        (learned (x == t) (mem t xs) (field x found) (field t found) (get t out)
          (λ e. ap (λ i. field i found) ((eq_iff x t).0 e)))

All-mem :
    (xs ys : List String)
    → ((x : String) → mem x xs ≡ true → mem x ys ≡ true)
    → All (λ x. mem x ys ≡ true) xs
unfolding mem
All-mem [] ys f = tt
All-mem (x ∷ xs) ys f =
    (f x (ground (arith, eq_refl x)), All-mem xs ys (λ y m. f y (ground (arith, m))))

-- Only targets are asked for.
pub missing-All :
    (now : ℕ) (cache : Cache) (ts : List String)
    → All (λ i. mem i ts ≡ true) (missing now cache (sorted_set ts))
missing-All now cache ts =
    All-mem (missing now cache (sorted_set ts)) ts
      (λ i m. ground (arith, mem-missing now cache i (sorted_set ts), mem-sorted_set i ts, m))
