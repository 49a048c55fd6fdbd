-- ===== src/Jobs/Kept.antt =====
-- Which rows of the table the statements of other invocations leave as they are.
use agentic_memory_stack_for.Prelude.{
  ℕ, String, ◌≡◌, refl, ◌⊎◌, inl, inr, Bool, true, false, ◌&&◌, none, some, List, [], ◌∷◌, ◌++◌,
  ◌==◌, arith, any, map, Bool-cases, ap, ◌∙◌, sym, eqb,
}
use agentic_memory_stack_for.Jobs.Queue.{
  State, queued, running, done, failed, Row, Table, Process, is_queued, is_running, is_active,
  is_number, is_stale, requeue_row, requeue, claim_row, claim_queued, claim_new, claim_write, Owner,
  owns, finish_row, finish,
}
use agentic_memory_stack_for.Jobs.Steps.{Ended, Step, requeued, claimed, finished, Run, stop, step}

abbrev pub Has : Row → List Row → Type 0
Has r [] = ⊥
Has r (x ∷ xs) = (x ≡ r) ⊎ Has r xs

pub Has-map : (f : Row → Row) (r : Row) (rows : List Row) → Has r rows → Has (f r) (map f rows)
Has-map f r [] h = elim h [ ]
Has-map f r (x ∷ xs) (inl e) = inl (ap f e)
Has-map f r (x ∷ xs) (inr h) = inr (Has-map f r xs h)

pub Has-map_fixed :
    (f : Row → Row) (r : Row) (rows : List Row) → f r ≡ r → Has r rows → Has r (map f rows)
Has-map_fixed f r [] e h = elim h [ ]
Has-map_fixed f r (x ∷ xs) e (inl d) = inl (ap f d ∙ e)
Has-map_fixed f r (x ∷ xs) e (inr h) = inr (Has-map_fixed f r xs e h)

Has-append : (r : Row) (rows more : List Row) → Has r rows → Has r (rows ++ more)
Has-append r [] more h = elim h [ ]
Has-append r (x ∷ xs) more (inl e) = inl e
Has-append r (x ∷ xs) more (inr h) = inr (Has-append r xs more h)

-- The claim of a row was finished by its owner, or requeued after it was read as stale.
pub data Change (r : Row) : Row → Type 0 where
  ended :
      (o : Owner) (state : State) (now : ℕ) (outcome : String)
      → owns o r ≡ true
      → Ended state
      → Change r (finish_row o state now outcome r)
  reaped :
      (p : Process) (now : ℕ) (name : String) (read : Row)
      → is_stale p now name read ≡ true
      → (eqb r.id read.id
          && is_number r.owner_pid read.owner_pid
          && is_number r.claimed_at read.claimed_at)
        ≡ true
      → Change r (requeue_row read r)

abbrev same_claim : Row → Row → Bool
same_claim read r =
    eqb r.id read.id
    && is_number r.owner_pid read.owner_pid
    && is_number r.claimed_at read.claimed_at

requeue_row-other : (read r : Row) → same_claim read r ≡ false → requeue_row read r ≡ r
unfolding requeue_row
requeue_row-other read r h = ground arith

claim_row-running :
    (p : Process) (now stale_after rid : ℕ) (r : Row)
    → is_queued r.state ≡ false
    → claim_row p now stale_after rid r ≡ r
unfolding claim_row
claim_row-running p now stale_after rid r h = ground arith

finish_row-other :
    (o : Owner) (state : State) (now : ℕ) (outcome : String) (r : Row)
    → owns o r ≡ false
    → finish_row o state now outcome r ≡ r
unfolding finish_row
finish_row-other o state now outcome r h = ground arith

running-ne : (s : State) → is_running s ≡ true → is_queued s ≡ false
unfolding is_running is_queued
running-ne queued h = sym h
running-ne running h = refl
running-ne done h = refl
running-ne failed h = refl

new_kept :
    (t : Table) (r : Row) (p : Process) (now stale_after : ℕ) (name key : String)
    → Has r t.rows
    → Has r (claim_new p now stale_after name key t).1.rows
unfolding claim_new
new_kept t r p now stale_after name key h =
    elim (Bool-cases (any (λ r. (r.name == name) && is_active r) t.rows)) [
      | inl e ↦ rw e h
      | inr e ↦ rw e (Has-append r t.rows _ h)
    ]

-- In one statement of any invocation a running row stays as it is, or its owner has ended it, or a
-- claim of the same row, process id and time was read as stale and is requeued.
pub Step-Change :
    (t u : Table) (r : Row)
    → is_running r.state ≡ true
    → Has r t.rows
    → Step t u
    → Has r u.rows ⊎ ((r' : Row) × Change r r' × Has r' u.rows)
unfolding requeue claim_write claim_queued claim_new finish
Step-Change t u r a h (requeued _ p now name read s) = elim (Bool-cases (same_claim read r)) [
  | inl e ↦
      inr (requeue_row read r, reaped p now name read s e, Has-map (requeue_row read) r t.rows h)
  | inr e ↦ inl (Has-map_fixed (requeue_row read) r t.rows (requeue_row-other read r e) h)
]
Step-Change t u r a h (claimed _ p now stale_after name key (some read)) = inl (
    Has-map_fixed _ r t.rows (claim_row-running p now stale_after read.id r (running-ne r.state a))
      h)
Step-Change t u r a h (claimed _ p now stale_after name key none) =
    inl (new_kept t r p now stale_after name key h)
Step-Change t u r a h (finished _ o state now outcome e) = elim (Bool-cases (owns o r)) [
  | inl own ↦ inr (
    finish_row o state now outcome r,
    ended o state now outcome own e,
    Has-map (finish_row o state now outcome) r t.rows h,
  )
  | inr other ↦ inl (Has-map_fixed _ r t.rows (finish_row-other o state now outcome r other) h)
]

requeue_row-ended : (read r : Row) → is_active r ≡ false → requeue_row read r ≡ r
unfolding requeue_row is_active
requeue_row-ended read r h = ground arith

claim_row-ended :
    (p : Process) (now stale_after rid : ℕ) (r : Row)
    → is_active r ≡ false
    → claim_row p now stale_after rid r ≡ r
unfolding claim_row is_active
claim_row-ended p now stale_after rid r h = ground arith

finish_row-ended :
    (o : Owner) (state : State) (now : ℕ) (outcome : String) (r : Row)
    → is_active r ≡ false
    → finish_row o state now outcome r ≡ r
unfolding finish_row owns is_active
finish_row-ended o state now outcome r h = ground arith

Step-ended : (t u : Table) (r : Row) → is_active r ≡ false → Has r t.rows → Step t u → Has r u.rows
unfolding requeue claim_write claim_queued finish
Step-ended t u r a h (requeued _ p now name read s) =
    Has-map_fixed (requeue_row read) r t.rows (requeue_row-ended read r a) h
Step-ended t u r a h (claimed _ p now stale_after name key (some read)) =
    Has-map_fixed _ r t.rows (claim_row-ended p now stale_after read.id r a) h
Step-ended t u r a h (claimed _ p now stale_after name key none) =
    new_kept t r p now stale_after name key h
Step-ended t u r a h (finished _ o state now outcome e) =
    Has-map_fixed _ r t.rows (finish_row-ended o state now outcome r a) h

-- A row that is neither queued nor running never changes again, whatever the invocations do.
pub run-ended :
    (t u : Table) (r : Row) → is_active r ≡ false → Has r t.rows → Run t u → Has r u.rows
run-ended t u r a h (stop _) = h
run-ended t v r a h (step _ u _ s run) = run-ended u v r a (Step-ended t u r a h s) run
