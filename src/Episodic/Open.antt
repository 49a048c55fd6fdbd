-- ===== src/Episodic/Open.antt =====
-- At most one unfinished checkpoint of a session, and its summary under the cap.
use mathlib.Core.Bool.{false≢true}
use agentic_memory_stack_for.Prelude.{
  ℕ, suc, ◌+◌, ◌≤◌, ◌<◌, String, ◌≡◌, refl, sym, ◌∙◌, inl, inr, arith, Bool, true, false, ◌&&◌,
  Option, none, some, List, [], ◌∷◌, ◌++◌, ◌⊎◌, ltb, eqb, if◌then◌else◌, map, any, All, Bool-cases,
}
use agentic_memory_stack_for.Episodic.Store.{Episode, is_open, latest, later}

unfoldable pub count_open : String → List Episode → ℕ
count_open sid [] = 0
count_open sid (e ∷ es) = let rest = count_open sid es in if is_open sid e then suc rest else rest

pub count_open-map :
    (sid : String) (f : Episode → Episode) (es : List Episode)
    → ((e : Episode) → is_open sid (f e) ≡ true → is_open sid e ≡ true)
    → count_open sid (map f es) ≤ count_open sid es
unfolding count_open
count_open-map sid f [] h = omega arith
count_open-map sid f (e ∷ es) h = ground (arith, h e, count_open-map sid f es h)

pub count_open-append :
    (sid : String) (es : List Episode) (e : Episode)
    → count_open sid (es ++ (e ∷ [])) ≡ count_open sid es + (if is_open sid e then 1 else 0)
unfolding count_open
count_open-append sid [] e = ground arith
count_open-append sid (x ∷ es) e = ground (arith, count_open-append sid es e)

later-some : (e : Episode) (o : Option Episode) → later (some e) o ≡ none → ⊥
later-some e none h = cc
later-some e (some f) h = ground arith

pub count_open-none :
    (sid : String) (es : List Episode) → latest (is_open sid) es ≡ none → count_open sid es ≡ 0
unfolding count_open latest
count_open-none sid [] h = refl
count_open-none sid (e ∷ es) h = elim (Bool-cases (is_open sid e)) [
  | inl k ↦ absurd (later-some e (latest (is_open sid) es) (rw k at h))
  | inr k ↦ rw k (count_open-none sid es (rw k at h))
]

later-cases :
    (e : Episode) (o : Option Episode) {row : Episode}
    → later (some e) o ≡ some row
    → (row ≡ e) ⊎ (o ≡ some row)
later-cases e none h = inl (cc)
later-cases e (some f) h = elim (Bool-cases (ltb e.id f.id)) [
  | inl k ↦ inr (rw k at h)
  | inr k ↦ let g : some e ≡ some _ = rw k at h in inl (cc)
]

latest-cons :
    (p : Episode → Bool) (e : Episode) (es : List Episode) {row : Episode}
    → latest p (e ∷ es) ≡ some row
    → ((p e ≡ true) × (row ≡ e)) ⊎ (latest p es ≡ some row)
unfolding latest
latest-cons p e es {row} h = elim (Bool-cases (p e)) [
  | inl k ↦ elim (later-cases e (latest p es) {row = row} (rw k at h)) [
    | inl g ↦ inl (k, g)
    | inr g ↦ inr g
  ]
  | inr k ↦ inr (rw k at h)
]

found_first :
    (P : Episode → Type 0) (p : Episode → Bool) (e : Episode) (es : List Episode) {row : Episode}
    → P e
    → p e ≡ true
    → row ≡ e
    → P row × (p row ≡ true) × (any (λ x. p x && eqb x.id row.id) (e ∷ es) ≡ true)
unfolding any
found_first P p e es {row} h k g = rw g (h, k, ground arith)

latest_nil : (p : Episode → Bool) {row : Episode} → latest p [] ≡ some row → ⊥
unfolding latest
latest_nil p h = cc

-- The row that is found passes, and satisfies what all rows satisfy.
pub latest-found :
    (P : Episode → Type 0) (p : Episode → Bool) (es : List Episode) {row : Episode}
    → All P es
    → latest p es ≡ some row
    → P row × (p row ≡ true) × (any (λ e. p e && eqb e.id row.id) es ≡ true)
unfolding any
latest-found P p [] h k = absurd (latest_nil p k)
latest-found P p (e ∷ es) {row} h k = elim (latest-cons p e es k) [
  | inl (a, g) ↦ found_first P p e es h.0 a g
  | inr g ↦ let r = latest-found P p es h.1 g in (r.0, r.1, ground arith)
]

pub is_open-if :
    (sid : String) (b : Bool) (e f : Episode)
    → (is_open sid f ≡ true → is_open sid e ≡ true)
    → is_open sid (if b then f else e) ≡ true
    → is_open sid e ≡ true
is_open-if sid true e f h k = h k
is_open-if sid false e f h k = k

-- Writing a row that counts so that it no longer does.
pub count_open-closed :
    (sid : String) (id : ℕ) (f : Episode → Episode) (es : List Episode)
    → ((e : Episode) → is_open sid (f e) ≡ false)
    → any (λ e. is_open sid e && eqb e.id id) es ≡ true
    → count_open sid (map (λ e. if eqb e.id id then f e else e) es) < count_open sid es
unfolding count_open any
count_open-closed sid id f [] h k = cc
count_open-closed sid id f (e ∷ es) h k = ground (
  arith,
  h e,
  count_open-closed sid id f es h,
  count_open-map sid (λ x. if eqb x.id id then f x else x) es
      (λ x. is_open-if sid (eqb x.id id) x (f x) (λ g. absurd (false≢true (sym (h x) ∙ g)))),
)
