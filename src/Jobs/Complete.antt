-- ===== src/Jobs/Complete.antt =====
-- What one invocation amounts to: statements of the table, and an exit code that a receipt backs.
use Prim.Native.String.{◌++◌}
use agentic_memory_stack_for.Prelude.{
  ℕ, zero, suc, String, ◌≡◌, ◌≢◌, refl, ap, ◌∙◌, ◌⊎◌, inl, inr, Bool, true, false, not, Option,
  none, some, drop, length, ◌-◌, List, [], ◌∷◌, if◌then◌else◌, Bool-cases, filter, All,
}
use agentic_memory_stack_for.Jobs.Queue.{
  Row, Table, Process, done, failed, Claim, is_stale, requeue, requeue_all, reap, oldest_queued,
  claim, Owner,
}
use agentic_memory_stack_for.Jobs.Steps.{
  is_done, is_failed, Step, requeued, claimed, finished, Run, stop, step,
}
use agentic_memory_stack_for.Jobs.Receipt.{
  Observed, nothing, seen, crashed, observe_receipt, Line, tail_lines,
}
use agentic_memory_stack_for.Jobs.Observe.{Exists, IsReceipt, observe_receipt-IsReceipt}
use agentic_memory_stack_for.Jobs.Invocation.{
  Code, code, signal, Child, exec_error, exited, Exit, exits, Invocation, is_zero, complete,
  after_child, run_claim, on_claim, claimed_at_of, cmd_run,
}

run_append : (t u v : Table) → Run t u → Run u v → Run t v
run_append t u v (stop _) r = r
run_append t v w (step _ u _ s q) r = step t u w s (run_append u v w q r)

one : (t u : Table) → Step t u → Run t u
one t u s = step t u u s (stop u)

requeue_all-Run :
    (p : Process) (now : ℕ) (name : String) (reads : List Row) (t : Table)
    → All (λ r. is_stale p now name r ≡ true) reads
    → Run t (requeue_all reads t)
unfolding requeue_all
requeue_all-Run p now name [] t h = stop t
requeue_all-Run p now name (read ∷ reads) t h =
    step t (requeue read t) _ (requeued t p now name read h.0)
      (requeue_all-Run p now name reads (requeue read t) h.1)

All-filtered : (f : Row → Bool) (rows : List Row) → All (λ r. f r ≡ true) (filter f rows)
unfolding filter
All-filtered f [] = tt
All-filtered f (r ∷ rs) = elim (Bool-cases (f r)) [
  | inl e ↦ rw e (e, All-filtered f rs)
  | inr e ↦ rw e (All-filtered f rs)
]

gated :
    (b : Bool) (t : Table) (x y : Exit × Table)
    → Run t x.1
    → Run t y.1
    → Run t (if not b then x else y).1
gated true t x y h g = g
gated false t x y h g = h

module _ (i : Invocation) (before : (t : Table) → Run t (i.before_read t))
    (while : (t : Table) → Run t (i.while_running t)) where
  complete-Run :
      (o : Owner) (rc : Code) (found : Observed) (t : Table) → Run t (complete i o rc found t).1
  unfolding complete
  complete-Run o rc crashed t = stop t
  complete-Run o rc nothing t =
      one t _ (finished t o failed i.finish_time "failed:receipt-missing" is_failed)
  complete-Run o rc (seen outcome) t = elim (Bool-cases (is_zero rc)) [
    | inl e ↦ rw e (one t _ (finished t o done i.finish_time outcome is_done))
    | inr e ↦ rw e (one t _ (finished t o failed i.finish_time outcome is_failed))
  ]

  after_child-Run :
      (o : Owner) (key : String) (c : Child) (t : Table) → Run t (after_child i o key c t).1
  unfolding after_child
  after_child-Run o key (exec_error why) t =
      one t _ (finished t o failed i.finish_time ("failed:exec-error:" ++ why) is_failed)
  after_child-Run o key (exited rc) t = complete-Run o rc _ t

  run_claim-Run :
      (rid : ℕ) (key : String) (at : Option ℕ) (t : Table) → Run t (run_claim i rid key at t).1
  unfolding run_claim
  run_claim-Run rid key none t = stop t
  run_claim-Run rid key (some at) t =
      run_append t (i.while_running t) _ (while t)
        (after_child-Run _ key (i.child key) (i.while_running t))

  on_claim-Run : (c : Option Claim) (t : Table) → Run t (on_claim i (c, t)).1
  unfolding on_claim
  on_claim-Run none t = stop t
  on_claim-Run (some (rid, key)) t =
      run_append t (i.before_read t) _ (before t) (run_claim-Run rid key _ (i.before_read t))

  reaped_and_claimed :
      (t : Table)
      → Run t
          (claim i.process i.claim_time i.stale_after i.name i.new_key
            (reap i.process i.reap_time i.name t)).1
  unfolding reap claim
  reaped_and_claimed t =
      let u = requeue_all (filter (is_stale i.process i.reap_time i.name) t.rows) t in
      run_append t u _ (requeue_all-Run i.process i.reap_time i.name _ t (All-filtered _ t.rows)) (
        one u _ (
          claimed u i.process i.claim_time i.stale_after i.name i.new_key
            (oldest_queued i.name u.rows)))

  -- Whatever an invocation does to the table is a sequence of the queue's statements, if what the
  -- others do in between is one.
  cmd_run-Run : (t : Table) → Run t (cmd_run i t).1
  unfolding cmd_run
  cmd_run-Run t =
      gated i.is_brain t _ _ (stop t) (run_append t _ _ (reaped_and_claimed t) (on_claim-Run _ _))

never_zero : (n : ℕ) (b : Bool) → exits (if b then code 3 else code (suc n)) ≢ exits (code 0)
never_zero n true = λ h. cc
never_zero n false = λ h. cc

module _ (i : Invocation) where
  -- The claim of this invocation, after its reap.
  abbrev pub claim_of : Table → Option Claim × Table
  claim_of t =
      claim i.process i.claim_time i.stale_after i.name i.new_key
        (reap i.process i.reap_time i.name t)

  -- The child of the key exited with 0, and a line near the end of the key's receipt carries the
  -- key and a time that is no older than `since`, but for the grace.
  abbrev IsBacked : String → ℕ → Type 0
  IsBacked key since =
      (i.child key ≡ exited (code 0))
      × ((lines : List Line) × (outcome : String) × (i.receipt key ≡ some lines)
          × Exists (IsReceipt i.instant key since outcome) (drop (length lines - tail_lines) lines))

  -- The claim that the table gave is backed since the time at which the table says it was claimed.
  abbrev pub IsComplete : Table → Type 0
  IsComplete t =
      (rid : ℕ) × (key : String) × (at : ℕ) × ((claim_of t).0 ≡ some (rid, key))
      × (claimed_at_of rid (i.before_read (claim_of t).1).rows ≡ some at)
      × IsBacked key at

  unreceived :
      (key : String) (since : ℕ) (outcome : String)
      → observe_receipt i.instant key since none ≡ seen outcome
      → ⊥
  unfolding observe_receipt
  unreceived key since outcome h = cc

  received :
      (key : String) (since : ℕ) (outcome : String) (r : Option (List Line))
      → i.receipt key ≡ r
      → observe_receipt i.instant key since r ≡ seen outcome
      → (lines : List Line) × (outcome : String) × (i.receipt key ≡ some lines)
        × Exists (IsReceipt i.instant key since outcome) (drop (length lines - tail_lines) lines)
  received key since outcome none e h = absurd (unreceived key since outcome h)
  received key since outcome (some lines) e h =
      (lines, outcome, e, observe_receipt-IsReceipt i.instant key since lines outcome h)

  complete-zero :
      (o : Owner) (rc : Code) (found : Observed) (t : Table)
      → (complete i o rc found t).0 ≡ exits (code 0)
      → (rc ≡ code 0) × ((outcome : String) × (found ≡ seen outcome))
  unfolding complete is_zero
  complete-zero o rc crashed t h = absurd cc
  complete-zero o (signal n) nothing t h = absurd cc
  complete-zero o (code zero) nothing t h = absurd cc
  complete-zero o (code (suc n)) nothing t h = absurd (never_zero n (is_zero (code (suc n))) h)
  complete-zero o rc (seen outcome) t h = (cc, (outcome, refl))

  after_child-zero :
      (o : Owner) (key : String) (c : Child) (t : Table)
      → i.child key ≡ c
      → (after_child i o key c t).0 ≡ exits (code 0)
      → IsBacked key o.claimed_at
  unfolding after_child
  after_child-zero o key (exec_error why) t e h = absurd cc
  after_child-zero o key (exited rc) t e h =
      let (z, (outcome, s)) = complete-zero o rc _ t h in
      (e ∙ ap exited z, received key o.claimed_at outcome (i.receipt key) refl s)

  run_claim-zero :
      (rid : ℕ) (key : String) (at : Option ℕ) (t : Table)
      → (run_claim i rid key at t).0 ≡ exits (code 0)
      → (since : ℕ) × (at ≡ some since) × IsBacked key since
  unfolding run_claim
  run_claim-zero rid key none t h = absurd cc
  run_claim-zero rid key (some at) t h =
      (at, refl, after_child-zero _ key (i.child key) (i.while_running t) refl h)

  on_claim-zero :
      (t : Table) (c : Option Claim × Table)
      → claim_of t ≡ c
      → (on_claim i c).0 ≡ exits (code 0)
      → ((claim_of t).0 ≡ none) ⊎ IsComplete t
  unfolding on_claim
  on_claim-zero t (none, u) e h = inl (ap (λ c. c.0) e)
  on_claim-zero t (some (rid, key), u) e h =
      let (at, s, b) = run_claim-zero rid key _ (i.before_read u) h in
      inr (
        rid,
        key,
        at,
        ap (λ c. c.0) e,
        ap (λ c. claimed_at_of rid (i.before_read c.1).rows) e ∙ s,
        b,
      )

  gated-zero :
      (b : Bool) (t : Table) (x : Exit × Table)
      → (if not b then (exits (code 0), t) else x).0 ≡ exits (code 0)
      → (b ≡ false) ⊎ (x.0 ≡ exits (code 0))
  gated-zero true t x h = inr h
  gated-zero false t x h = inl refl

  -- When an invocation exits with 0, the box is no brain, or its claim was lost, or the child of
  -- the claimed key exited with 0 and one of the last 200 lines of that key's receipt carries the
  -- key and a time that is no older than the claimed_at in the table, but for the grace.
  pub cmd_run-zero :
      (t : Table)
      → (cmd_run i t).0 ≡ exits (code 0)
      → (i.is_brain ≡ false) ⊎ ((claim_of t).0 ≡ none) ⊎ IsComplete t
  unfolding cmd_run
  cmd_run-zero t h = elim (gated-zero i.is_brain t (on_claim i (claim_of t)) h) [
    | inl e ↦ inl e
    | inr r ↦ inr (on_claim-zero t (claim_of t) refl r)
  ]
