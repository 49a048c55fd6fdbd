-- ===== src/Jobs/Distinct.antt =====
-- The ids of the rows are distinct.
use agentic_memory_stack_for.Prelude.{
  ℕ, suc, String, ◌≡◌, inl, inr, true, false, ◌&&◌, none, some, List, [], ◌∷◌, ◌++◌, ◌==◌, arith,
  any, map, Bool-cases, eqb, ltb, All, All-map, All-append,
}
use agentic_memory_stack_for.Jobs.Queue.{
  State, Row, Table, Process, is_active, requeue_row, requeue, claim_row, claim_queued, claim_new,
  claim_write, new_row, Owner, finish_row, finish,
}
use agentic_memory_stack_for.Jobs.Steps.{Step, requeued, claimed, finished, Run, stop, step, empty}

abbrev pub Distinct : List Row → Type 0
Distinct [] = Unit
Distinct (r ∷ rs) = All (λ s. eqb r.id s.id ≡ false) rs × Distinct rs

-- Every id is below the counter, and no id stands twice.
pub record IsNumbered (t : Table) : Type 0 where
  pub below : All (λ r. ltb r.id t.next_id ≡ true) t.rows
  pub distinct : Distinct t.rows

KeepsIds : (Row → Row) → Type 0
KeepsIds f = (r : Row) → (f r).id ≡ r.id

All-map_ids :
    (f : Row → Row) (P : ℕ → Type 0) (rows : List Row)
    → KeepsIds f
    → All (λ r. P r.id) rows
    → All (λ r. P r.id) (map f rows)
unfolding KeepsIds
All-map_ids f P [] k h = tt
All-map_ids f P (r ∷ rs) k h = (rw (k r) h.0, All-map_ids f P rs k h.1)

Distinct-map :
    (f : Row → Row) (rows : List Row) → KeepsIds f → Distinct rows → Distinct (map f rows)
unfolding KeepsIds
Distinct-map f [] k h = tt
Distinct-map f (r ∷ rs) k h =
    (rw (k r) (All-map_ids f (λ i. eqb r.id i ≡ false) rs k h.0), Distinct-map f rs k h.1)

map-IsNumbered :
    (f : Row → Row) (t : Table)
    → KeepsIds f
    → IsNumbered t
    → IsNumbered (record t { rows = map f t.rows })
map-IsNumbered f t k h = record {
  below = All-map_ids f (λ i. ltb i t.next_id ≡ true) t.rows k h.below;
  distinct = Distinct-map f t.rows k h.distinct;
}

above : (n : ℕ) (r : Row) → ltb r.id n ≡ true → eqb r.id n ≡ false
above n r h = ground arith

later : (n : ℕ) (r : Row) → ltb r.id n ≡ true → ltb r.id (suc n) ≡ true
later n r h = ground arith

Distinct-append :
    (rows : List Row) (x : Row)
    → Distinct rows
    → All (λ r. ltb r.id x.id ≡ true) rows
    → Distinct (rows ++ x ∷ [])
Distinct-append [] x h b = (tt, tt)
Distinct-append (r ∷ rs) x h b =
    (All-append _ rs (x ∷ []) h.0 (above x.id r b.0, tt), Distinct-append rs x h.1 b.1)

requeue_row-id : (read : Row) → KeepsIds (requeue_row read)
unfolding KeepsIds requeue_row
requeue_row-id read r = ground arith

claim_row-id : (p : Process) (now stale_after rid : ℕ) → KeepsIds (claim_row p now stale_after rid)
unfolding KeepsIds claim_row
claim_row-id p now stale_after rid r = ground arith

finish_row-id :
    (o : Owner) (state : State) (now : ℕ) (outcome : String)
    → KeepsIds (finish_row o state now outcome)
unfolding KeepsIds finish_row
finish_row-id o state now outcome r = ground arith

new-IsNumbered :
    (p : Process) (now stale_after : ℕ) (name key : String) (t : Table)
    → IsNumbered t
    → IsNumbered (claim_new p now stale_after name key t).1
unfolding claim_new new_row
new-IsNumbered p now stale_after name key t h =
    elim (Bool-cases (any (λ r. (r.name == name) && is_active r) t.rows)) [
      | inl e ↦ rw e h
      | inr e ↦ rw e record {
        below =
            All-append _ t.rows _ (All-map _ _ t.rows (λ r b. later t.next_id r b) h.below)
              (ground arith, tt);
        distinct = Distinct-append t.rows _ h.distinct h.below;
      }
    ]

pub requeue-IsNumbered : (read : Row) (t : Table) → IsNumbered t → IsNumbered (requeue read t)
unfolding requeue
requeue-IsNumbered read t h = map-IsNumbered (requeue_row read) t (requeue_row-id read) h

Step-IsNumbered : (t u : Table) → IsNumbered t → Step t u → IsNumbered u
unfolding requeue claim_write claim_queued finish
Step-IsNumbered t u h (requeued _ p now name read s) =
    map-IsNumbered (requeue_row read) t (requeue_row-id read) h
Step-IsNumbered t u h (claimed _ p now stale_after name key (some read)) =
    map-IsNumbered _ t (claim_row-id p now stale_after read.id) h
Step-IsNumbered t u h (claimed _ p now stale_after name key none) =
    new-IsNumbered p now stale_after name key t h
Step-IsNumbered t u h (finished _ o state now outcome e) =
    map-IsNumbered _ t (finish_row-id o state now outcome) h

run-IsNumbered : (t u : Table) → IsNumbered t → Run t u → IsNumbered u
run-IsNumbered t u h (stop _) = h
run-IsNumbered t v h (step _ u _ s run) = run-IsNumbered u v (Step-IsNumbered t u h s) run

pub reachable-IsNumbered : (t : Table) → Run empty t → IsNumbered t
reachable-IsNumbered t run = run-IsNumbered empty t (record { below = tt; distinct = tt }) run
