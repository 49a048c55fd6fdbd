-- ===== src/Jobs/Observe.antt =====
-- What an observed receipt tells.
use agentic_memory_stack_for.Prelude.{
  ℕ, &&-left, &&-right, ◌+◌, ◌-◌, ◌≤◌, String, ◌≡◌, refl, ◌⊎◌, inl, inr, Bool, true, false, Option,
  none, some, List, [], ◌∷◌, arith, eq_iff, ◌==◌, if◌then◌else◌, length, drop,
}
use agentic_memory_stack_for.Jobs.Queue.{is_text}
use agentic_memory_stack_for.Jobs.Receipt.{
  Line, not_json, not_object, object, Observed, nothing, seen, crashed, is_recent, check_line,
  prefer, search, tail_lines, grace, observe_receipt,
}

abbrev pub Exists : (Line → Type 0) → List Line → Type 0
Exists P [] = ⊥
Exists P (l ∷ ls) = P l ⊎ Exists P ls

decided :
    (b : Bool) (o outcome : String)
    → (if b then seen o else nothing) ≡ seen outcome
    → (b ≡ true) × (o ≡ outcome)
decided true o outcome h = (refl, cc)
decided false o outcome h = absurd cc

prefer-seen :
    (a b : Observed) (outcome : String)
    → prefer a b ≡ seen outcome
    → (a ≡ seen outcome) ⊎ (b ≡ seen outcome)
unfolding prefer
prefer-seen nothing b outcome h = inr h
prefer-seen (seen o) b outcome h = inl h
prefer-seen crashed b outcome h = absurd cc

same_text : (s t : String) → (s == t) ≡ true → s ≡ t
same_text s t h = ground (arith, eq_iff s t)

module _ (instant : String → Option ℕ) (key : String) (claimed_at : ℕ) where
  -- The line carries this run's key, the outcome, and a time that is no older than the claim, but for the grace.
  pub record IsReceipt (outcome : String) (line : Line) : Type 0 where
    pub ts : String
    pub time : ℕ
    pub stamped : line ≡ object (some key) (some outcome) ts
    pub read : instant ts ≡ some time
    pub recent : claimed_at ≤ time + grace

  recent-time :
      (o : Option ℕ)
      → is_recent instant key claimed_at o ≡ true
      → (t : ℕ) × (o ≡ some t) × (claimed_at ≤ t + grace)
  unfolding is_recent
  recent-time none h = absurd cc
  recent-time (some t) h = (t, refl, ground arith)

  check_line-IsReceipt :
      (l : Line) (outcome : String)
      → check_line instant key claimed_at l ≡ seen outcome
      → IsReceipt outcome l
  unfolding check_line is_text
  check_line-IsReceipt not_json outcome h = absurd cc
  check_line-IsReceipt not_object outcome h = absurd cc
  check_line-IsReceipt (object k none ts) outcome h = absurd cc
  check_line-IsReceipt (object none (some o) ts) outcome h = absurd cc
  check_line-IsReceipt (object (some k) (some o) ts) outcome h =
      let (b, same) = decided _ o outcome h in
      let (t, r, c) = recent-time (instant ts) (&&-right (k == key) _ b) in
      record {
        ts = ts;
        time = t;
        stamped = rw (same_text k key (&&-left (k == key) _ b), same) refl;
        read = r;
        recent = c;
      }

  search-IsReceipt :
      (ls : List Line) (outcome : String)
      → search instant key claimed_at ls ≡ seen outcome
      → Exists (IsReceipt outcome) ls
  unfolding search
  search-IsReceipt [] outcome h = absurd cc
  search-IsReceipt (l ∷ ls) outcome h =
      elim (prefer-seen (search instant key claimed_at ls) _ outcome h) [
        | inl e ↦ inr (search-IsReceipt ls outcome e)
        | inr e ↦ inl (check_line-IsReceipt l outcome e)
      ]

  -- An outcome that is observed stands in one of the last lines that are searched, which carries
  -- this run's key and a time that is no older than the claim, but for the grace.
  pub observe_receipt-IsReceipt :
      (lines : List Line) (outcome : String)
      → observe_receipt instant key claimed_at (some lines) ≡ seen outcome
      → Exists (IsReceipt outcome) (drop (length lines - tail_lines) lines)
  unfolding observe_receipt
  observe_receipt-IsReceipt lines outcome h =
      search-IsReceipt (drop (length lines - tail_lines) lines) outcome h
