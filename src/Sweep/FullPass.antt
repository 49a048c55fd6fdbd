-- ===== src/Sweep/FullPass.antt =====
-- The rotation reaches every canonical, where no service fails.
use Prim.Native.Nat.{◌/◌, ◌%◌}
use native.Mathlib.Nat.{div-add-mod', mod-lt}
use agentic_memory_stack_for.Prelude.{
  ℕ, zero, suc, ◌+◌, ◌-◌, ◌*◌, ◌≤◌, ◌<◌, ◌≡◌, ◌≢◌, refl, sym, ap, ◌∙◌, inl, inr, arith, Bool, true,
  false, Option, none, some, List, [], ◌∷◌, ◌++◌, if◌then◌else◌, drop, length, All, Bool-cases,
  take, length-take,
}
use agentic_memory_stack_for.Sweep.Rotation.{
  Canonical, epoch_lt, before, insert, order_canonicals, mark, Visit, unsweepable, query_failed,
  aborted, swept, Service, turn, sweep_loop, sweep_run, sweep_runs, weeks_for_full_pass,
}

-- Not checked at `t` or later.
abbrev pub is_stale : ℕ → Canonical → Bool
is_stale t c = epoch_lt c.contradiction_checked_at (some t)

unfoldable pub count_stale : ℕ → List Canonical → ℕ
count_stale t [] = 0
count_stale t (c ∷ cs) = let rest = count_stale t cs in if is_stale t c then suc rest else rest

-- No later canonical of the list is stale when this one is not.
abbrev Sorted : ℕ → List Canonical → Type 0
Sorted t [] = Unit
Sorted t (c ∷ cs) = (is_stale t c ≡ false → count_stale t cs ≡ 0) × Sorted t cs

count_stale-insert :
    (t : ℕ) (c : Canonical) (ds : List Canonical)
    → count_stale t (insert c ds) ≡ count_stale t (c ∷ ds)
unfolding count_stale insert
count_stale-insert t c [] = refl
count_stale-insert t c (d ∷ ds) = ground (arith, count_stale-insert t c ds)

count_stale-order :
    (t : ℕ) (cs : List Canonical) → count_stale t (order_canonicals cs) ≡ count_stale t cs
unfolding count_stale order_canonicals
count_stale-order t [] = refl
count_stale-order t (c ∷ cs) =
    count_stale-insert t c (order_canonicals cs)
    ∙ ap (λ n. if is_stale t c then suc n else n) (count_stale-order t cs)

stale_of_le :
    (t : ℕ) (s u : Option ℕ)
    → epoch_lt u s ≡ false
    → epoch_lt u (some t) ≡ true
    → epoch_lt s (some t) ≡ true
stale_of_le t none none h k = refl
stale_of_le t none (some u) h k = refl
stale_of_le t (some s) none h k = cc
stale_of_le t (some s) (some u) h k = ground arith

epoch_lt-asym : (s u : Option ℕ) → epoch_lt s u ≡ true → epoch_lt u s ≡ false
epoch_lt-asym none none h = refl
epoch_lt-asym none (some u) h = refl
epoch_lt-asym (some s) none h = cc
epoch_lt-asym (some s) (some u) h = ground arith

-- What comes before a stale canonical is stale.
before_stale :
    (t : ℕ) (c d : Canonical) → before c d ≡ true → is_stale t d ≡ true → is_stale t c ≡ true
unfolding before
before_stale t c d h k =
    let s = c.contradiction_checked_at in
    let u = d.contradiction_checked_at in
    stale_of_le t s u (not_after (epoch_lt s u) (epoch_lt u s) _ (epoch_lt-asym s u) h) k
  where
    not_after :
        (p q r : Bool)
        → (p ≡ true → q ≡ false)
        → (if p then true else if q then false else r) ≡ true
        → q ≡ false
    not_after true q r f g = f refl
    not_after false true r f g = sym g
    not_after false false r f g = refl

after_stale :
    (t : ℕ) (c d : Canonical) → before d c ≡ false → is_stale t d ≡ true → is_stale t c ≡ true
unfolding before
after_stale t c d h k =
    let s = c.contradiction_checked_at in
    let u = d.contradiction_checked_at in stale_of_le t s u (not_before (epoch_lt u s) _ h) k
  where
    not_before : (q r : Bool) → (if q then true else r) ≡ false → q ≡ false
    not_before true r g = g
    not_before false r g = refl

-- When `c` is not stale, neither is what the order puts behind it.
insert-Sorted : (t : ℕ) (c : Canonical) (ds : List Canonical) → Sorted t ds → Sorted t (insert c ds)
unfolding insert count_stale
insert-Sorted t c [] h = ((λ _. refl), tt)
insert-Sorted t c (d ∷ ds) h = elim (Bool-cases (before d c)) [
  | inl e ↦ rw e (
    (λ k. count_stale-insert t c ds ∙ ground (arith, before_stale t d c e, h.0 k)),
    insert-Sorted t c ds h.1,
  )
  | inr e ↦ rw e ((λ k. ground (arith, after_stale t c d e, h.0)), h)
]

order-Sorted : (t : ℕ) (cs : List Canonical) → Sorted t (order_canonicals cs)
unfolding order_canonicals
order-Sorted t [] = tt
order-Sorted t (c ∷ cs) = insert-Sorted t c (order_canonicals cs) (order-Sorted t cs)

-- The server takes every marker, no candidate query fails and no judge ends the run.
abbrev pub IsServed : Service → Type 0
IsServed s =
    (c : Canonical) → (s.takes c ≡ true) × (s.visit c ≢ query_failed) × (s.visit c ≢ aborted)

module _ (s : Service) where
  turn-le :
      (now : ℕ) (c : Canonical) (cs : List Canonical) (v : Visit) (r : ℕ × List Canonical) (n : ℕ)
      → r.0 ≤ n
      → (turn s now c cs v r).0 ≤ suc n
  unfolding turn
  turn-le now c cs unsweepable r n h = omega (arith, h)
  turn-le now c cs query_failed r n h = omega (arith, h)
  turn-le now c cs aborted r n h = omega arith
  turn-le now c cs swept r n h = ground (arith, h)

  -- No more are checked than the loop meets.
  checked_le : (now : ℕ) (cs : List Canonical) → (sweep_loop s now cs).0 ≤ length cs
  unfolding sweep_loop
  checked_le now [] = omega arith
  checked_le now (c ∷ cs) = turn-le now c cs (s.visit c) _ (length cs) (checked_le now cs)

  checked-limit : (n now : ℕ) (cs : List Canonical) → (sweep_run s (suc n) now cs).0 ≤ suc n
  unfolding sweep_run
  checked-limit n now cs = omega (
    arith,
    checked_le now (take (suc n) (order_canonicals cs)),
    length-take (suc n) (order_canonicals cs),
  )

module _ (s : Service) (served : IsServed s) (t now : ℕ) (late : t ≤ now) where
  mark_fresh : (c : Canonical) → is_stale t (mark s.takes now c) ≡ false
  unfolding mark
  mark_fresh c = rw (served c).0 (ground arith)

  -- A visit marks its canonical.
  loop_cons :
      (c : Canonical) (cs : List Canonical)
      → (sweep_loop s now (c ∷ cs)).1 ≡ mark s.takes now c ∷ (sweep_loop s now cs).1
  unfolding sweep_loop
  loop_cons c cs = turned (s.visit c) (served c).1 (served c).2
    where
      turned :
          (v : Visit)
          → v ≢ query_failed
          → v ≢ aborted
          → (turn s now c cs v (sweep_loop s now cs)).1
            ≡ mark s.takes now c ∷ (sweep_loop s now cs).1
      turned unsweepable g h = unfold turn in refl
      turned query_failed g h = absurd (g refl)
      turned aborted g h = absurd (h refl)
      turned swept g h = unfold turn in refl

  -- The budget `n` takes `n` stale canonicals from the front, if there are so many.
  count_stale-budget :
      (n : ℕ) (cs : List Canonical)
      → Sorted t cs
      → count_stale t ((sweep_loop s now (take n cs)).1 ++ drop n cs) ≡ count_stale t cs - n
  unfolding count_stale
  count_stale-budget zero cs h = unfold sweep_loop in omega arith
  count_stale-budget (suc n) [] h = unfold sweep_loop in omega arith
  count_stale-budget (suc n) (c ∷ cs) h =
      rw (loop_cons c (take n cs), count_stale)
        (ground (arith, mark_fresh c, count_stale-budget n cs h.1, h.0))

  count_stale-sweep_run :
      (n : ℕ) (cs : List Canonical)
      → count_stale t (sweep_run s (suc n) now cs).1 ≡ count_stale t cs - suc n
  unfolding sweep_run
  count_stale-sweep_run n cs =
      count_stale-budget (suc n) (order_canonicals cs) (order-Sorted t cs)
      ∙ ap (λ k. k - suc n) (count_stale-order t cs)

module _ (s : Service) (served : IsServed s) (t : ℕ) where
  -- Each run takes the budget off.
  count_stale-sweep_runs :
      (n : ℕ) (ts : List ℕ) (cs : List Canonical)
      → All (λ now. t ≤ now) ts
      → count_stale t (sweep_runs s (suc n) ts cs) ≡ count_stale t cs - length ts * suc n
  unfolding sweep_runs
  count_stale-sweep_runs n [] cs h = omega arith
  count_stale-sweep_runs n (now ∷ ts) cs h = grind (
    arith,
    count_stale-sweep_runs n ts (sweep_run s (suc n) now cs).1 h.1,
    count_stale-sweep_run s served t now h.0 n cs,
  )

  count_stale-le-length : (cs : List Canonical) → count_stale t cs ≤ length cs
  unfolding count_stale
  count_stale-le-length [] = omega arith
  count_stale-le-length (c ∷ cs) = ground (arith, count_stale-le-length cs)

le-mul : (a b m : ℕ) → a ≤ b → a * m ≤ b * m
le-mul a b m h = grind arith

-- `k` is the quotient, rounded up.
weeks-enough :
    (total processed k : ℕ) → weeks_for_full_pass total processed ≡ some k → total ≤ k * processed
unfolding weeks_for_full_pass
weeks-enough zero processed k h = omega arith
weeks-enough (suc total) zero k h = absurd (ground arith)
weeks-enough (suc total) (suc p) k h =
    let n = suc total + (suc p - 1) in
    let q : n / suc p ≡ k = ground arith in
    let whole : n / suc p * suc p + n % suc p ≡ n = div-add-mod' n (suc p) in
    let room : n % suc p < suc p = mod-lt n {m = suc p} (omega arith) in
    rw (← q) (omega (arith, whole, room))

module _ (s : Service) (served : IsServed s) (t : ℕ) where
  -- When the server takes every rotation marker, no candidate query fails and no judge ends a run,
  -- the limit is not zero, no run is earlier than an instant, and there are as many runs as the
  -- weeks of a full pass that one run reports, the runs leave no canonical unchecked since that
  -- instant.
  pub sweep_runs-full_pass :
      (n first : ℕ) (ts : List ℕ) (cs : List Canonical) (k : ℕ)
      → All (λ now. t ≤ now) ts
      → weeks_for_full_pass (length cs) (sweep_run s (suc n) first cs).0 ≡ some k
      → k ≤ length ts
      → count_stale t (sweep_runs s (suc n) ts cs) ≡ 0
  sweep_runs-full_pass n first ts cs k h w r =
      let checked = (sweep_run s (suc n) first cs).0 in
      omega (
        arith,
        count_stale-sweep_runs s served t n ts cs h,
        count_stale-le-length s served t cs,
        weeks-enough (length cs) checked k w,
        le-mul checked (suc n) k (checked-limit s n first cs),
        le-mul k (length ts) (suc n) r,
      )
