-- ===== src/Admission/Today.antt =====
-- mem0-server/admission_gate.py: `admission_rejections_today`, the snapshot of the day's counters.
use agentic_memory_stack_for.Prelude.{
  ℕ, zero, suc, ◌≤◌, String, ◌≡◌, inl, inr, true, false, Option, [], ◌∷◌, arith, ltb, if◌then◌else◌,
  Bool-cases, All, All-map, drop,
}
use agentic_memory_stack_for.Prelude.Dict.{Dict}
use agentic_memory_stack_for.Admission.Apply.{Rejections, Stamps}

abbrev pub first : ℕ → Dict ℕ → Dict ℕ
first zero d = []
first (suc n) [] = []
first (suc n) (e ∷ d) = e ∷ first n d

-- The sort by `-count` keeps the order of equal counts.
unfoldable pub insert_count : String × ℕ → Dict ℕ → Dict ℕ
insert_count x [] = x ∷ []
insert_count x (y ∷ d) = let rest = insert_count x d in if ltb x.1 y.1 then y ∷ rest else x ∷ y ∷ d

unfoldable pub by_count : Dict ℕ → Dict ℕ
by_count [] = []
by_count (x ∷ d) = insert_count x (by_count d)

pub record Today : Type 0 where
  pub date : Option String
  pub total : ℕ
  pub reasons : Dict ℕ
  pub stamp_target_unresolved : ℕ
  pub stamp_ignored_not_canonical : ℕ

unfoldable pub admission_rejections_today : ℕ → Rejections → Stamps → Today
admission_rejections_today top_n rejections stamps = record {
  date = rejections.date;
  total = rejections.total;
  reasons = first top_n (by_count rejections.reasons);
  stamp_target_unresolved = stamps.unresolved;
  stamp_ignored_not_canonical = stamps.ignored;
}

abbrev pub NoMore : String × ℕ → String × ℕ → Type 0
NoMore x y = y.1 ≤ x.1

abbrev Falling : Dict ℕ → Type 0
Falling [] = Unit
Falling (x ∷ d) = All (NoMore x) d × Falling d

not_more : (m n : ℕ) → ltb m n ≡ false → n ≤ m
not_more m n h = ground arith

less : (m n : ℕ) → ltb m n ≡ true → m ≤ n
less m n h = ground arith

at_most : (m n k : ℕ) → k ≤ n → n ≤ m → k ≤ m
at_most m n k h g = omega arith

All-insert_count :
    (z x : String × ℕ) (d : Dict ℕ)
    → NoMore z x
    → All (NoMore z) d
    → All (NoMore z) (insert_count x d)
unfolding insert_count
All-insert_count z x [] h a = (h, tt)
All-insert_count z x (y ∷ d) h a = elim (Bool-cases (ltb x.1 y.1)) [
  | inl e ↦ rw e (a.0, All-insert_count z x d h a.1)
  | inr e ↦ rw e (h, a)
]

Falling-insert_count : (x : String × ℕ) (d : Dict ℕ) → Falling d → Falling (insert_count x d)
unfolding insert_count
Falling-insert_count x [] h = (tt, tt)
Falling-insert_count x (y ∷ d) h = elim (Bool-cases (ltb x.1 y.1)) [
  | inl e ↦ rw e (All-insert_count y x d (less x.1 y.1 e) h.0, Falling-insert_count x d h.1)
  | inr e ↦
      let below = not_more x.1 y.1 e in
      rw e ((below, All-map (NoMore y) (NoMore x) d (λ z g. at_most x.1 y.1 z.1 g below) h.0), h)
]

Falling-by_count : (d : Dict ℕ) → Falling (by_count d)
unfolding by_count
Falling-by_count [] = tt
Falling-by_count (x ∷ d) = Falling-insert_count x (by_count d) (Falling-by_count d)

All-dropped : (P : String × ℕ → Type 0) (n : ℕ) (d : Dict ℕ) → All P d → All P (drop n d)
All-dropped P zero d h = h
All-dropped P (suc n) [] h = tt
All-dropped P (suc n) (x ∷ d) h = All-dropped P n d h.1

All-first : (n : ℕ) (d : Dict ℕ) → Falling d → All (λ x. All (NoMore x) (drop n d)) (first n d)
All-first zero d h = tt
All-first (suc n) [] h = tt
All-first (suc n) (x ∷ d) h = (All-dropped (NoMore x) n d h.0, All-first n d h.1)

-- No reason that the day's snapshot leaves out was counted more often than one that it shows.
pub admission_rejections_today-top :
    (top_n : ℕ) (rejections : Rejections) (stamps : Stamps)
    → All
        (λ x. All (NoMore x) (drop top_n (by_count rejections.reasons)))
        (admission_rejections_today top_n rejections stamps).reasons
unfolding admission_rejections_today
admission_rejections_today-top top_n rejections stamps =
    All-first top_n (by_count rejections.reasons) (Falling-by_count rejections.reasons)
