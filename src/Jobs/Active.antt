-- ===== src/Jobs/Active.antt =====
-- At most one active row per name, however the invocations interleave.
use agentic_memory_stack_for.Prelude.{
  ℕ, suc, ◌+◌, ◌≤◌, String, ◌≡◌, refl, inl, inr, Bool, true, false, ◌&&◌, none, some, List, [], ◌∷◌,
  ◌++◌, ◌==◌, arith, ap, eq_iff, if◌then◌else◌, any, map, Bool-cases,
}
use agentic_memory_stack_for.Jobs.Queue.{
  State, Row, Table, Process, is_queued, is_running, is_active, requeue_row, requeue, claim_row,
  claim_queued, claim_new, claim_write, new_row, Owner, finish_row, finish,
}
use agentic_memory_stack_for.Jobs.Steps.{
  Ended, is_done, is_failed, Step, requeued, claimed, finished, Run, stop, step, empty,
}

unfoldable pub is_active_of : String → Row → Bool
is_active_of name r = (r.name == name) && is_active r

-- The active rows of a name.
unfoldable pub count_active : String → List Row → ℕ
count_active name [] = 0
count_active name (r ∷ rs) =
    let rest = count_active name rs in if is_active_of name r then suc rest else rest

abbrev one_if : Bool → ℕ
one_if b = if b then 1 else 0

count_active-map :
    (name : String) (f : Row → Row) (rows : List Row)
    → ((r : Row) → is_active_of name (f r) ≡ true → is_active_of name r ≡ true)
    → count_active name (map f rows) ≤ count_active name rows
unfolding count_active
count_active-map name f [] h = omega arith
count_active-map name f (r ∷ rs) h = ground (arith, h r, count_active-map name f rs h)

count_active-append :
    (name : String) (rows : List Row) (r : Row)
    → count_active name (rows ++ r ∷ []) ≡ count_active name rows + one_if (is_active_of name r)
unfolding count_active
count_active-append name [] r = ground arith
count_active-append name (x ∷ xs) r = ground (arith, count_active-append name xs r)

count_active-none :
    (name : String) (rows : List Row)
    → any (λ r. (r.name == name) && is_active r) rows ≡ false
    → count_active name rows ≡ 0
unfolding count_active any is_active_of
count_active-none name [] h = refl
count_active-none name (r ∷ rs) h = ground (arith, count_active-none name rs)

active-requeue_row :
    (name : String) (read r : Row)
    → is_active_of name (requeue_row read r) ≡ true
    → is_active_of name r ≡ true
unfolding is_active_of requeue_row is_active
active-requeue_row name read r h = ground arith

active-claim_row :
    (name : String) (p : Process) (now stale_after rid : ℕ) (r : Row)
    → is_active_of name (claim_row p now stale_after rid r) ≡ true
    → is_active_of name r ≡ true
unfolding is_active_of claim_row is_active
active-claim_row name p now stale_after rid r h = ground arith

active-finish_row :
    (name : String) (o : Owner) (state : State) (now : ℕ) (outcome : String) (r : Row)
    → Ended state
    → is_active_of name (finish_row o state now outcome r) ≡ true
    → is_active_of name r ≡ true
unfolding is_active_of finish_row is_active is_queued is_running
active-finish_row name o state now outcome r is_done h = ground arith
active-finish_row name o state now outcome r is_failed h = ground arith

same_name : (s t : String) → (s == t) ≡ true → s ≡ t
same_name s t h = ground (arith, eq_iff s t)

one_at_most : (b : Bool) → one_if b ≤ 1
one_at_most true = omega arith
one_at_most false = omega arith

not_counted :
    (name : String) (r : Row) → (r.name == name) ≡ false → one_if (is_active_of name r) ≡ 0
unfolding is_active_of
not_counted name r h = rw h refl

at_most-append :
    (name : String) (rows : List Row) (r : Row)
    → any (λ x. (x.name == r.name) && is_active x) rows ≡ false
    → count_active name rows ≤ 1
    → count_active name (rows ++ r ∷ []) ≤ 1
at_most-append name rows r h b =
    let a = count_active-append name rows r in
    elim (Bool-cases (r.name == name)) [
      | inl e ↦ omega (
        arith,
        a,
        one_at_most (is_active_of name r),
        count_active-none r.name rows h,
        ap (λ m. count_active m rows) (same_name r.name name e),
      )
      | inr e ↦ omega (arith, a, b, not_counted name r e)
    ]

Step-active :
    (name : String) (t u : Table)
    → count_active name t.rows ≤ 1
    → Step t u
    → count_active name u.rows ≤ 1
unfolding requeue claim_write claim_queued claim_new new_row finish
Step-active name t u b (requeued _ p now n read s) =
    omega (arith, b, count_active-map name (requeue_row read) t.rows (active-requeue_row name read))
Step-active name t u b (claimed _ p now stale_after n key (some read)) = omega (
  arith,
  b,
  count_active-map name (claim_row p now stale_after read.id) t.rows
      (active-claim_row name p now stale_after read.id),
)
Step-active name t u b (claimed _ p now stale_after n key none) =
    elim (Bool-cases (any (λ r. (r.name == n) && is_active r) t.rows)) [
      | inl e ↦ rw e b
      | inr e ↦ rw e (at_most-append name t.rows (new_row p now stale_after n key t.next_id) e b)
    ]
Step-active name t u b (finished _ o state now outcome e) = omega (
  arith,
  b,
  count_active-map name (finish_row o state now outcome) t.rows
      (λ r. active-finish_row name o state now outcome r e),
)

run-active :
    (name : String) (t u : Table)
    → count_active name t.rows ≤ 1
    → Run t u
    → count_active name u.rows ≤ 1
run-active name t u b (stop _) = b
run-active name t v b (step _ u _ s run) = run-active name u v (Step-active name t u b s) run

-- From an empty table, whatever invocations run and however their statements interleave, at most
-- one row of a name is queued or running.
pub run-count_active : (name : String) (t : Table) → Run empty t → count_active name t.rows ≤ 1
unfolding count_active
run-count_active name t run = run-active name empty t (omega arith) run
