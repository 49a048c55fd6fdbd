-- ===== src/Jobs/Reap.antt =====
-- What a reap does to the whole table: it releases the stale claims of its name, and nothing else.
use mathlib.Core.Bool.{false≢true}
use agentic_memory_stack_for.Prelude.{
  ℕ, suc, String, ◌≡◌, refl, ◌⊎◌, inl, inr, Bool, true, false, Option, none, some, List, [], ◌∷◌,
  arith, if◌then◌else◌, map, filter, Bool-cases, ap, ◌∙◌, sym, eqb, All,
}
use agentic_memory_stack_for.Jobs.Queue.{
  queued, Row, Table, Process, is_running, is_number, is_live, is_stale, requeue_row, requeue,
  requeue_all, reap,
}
use agentic_memory_stack_for.Jobs.Steps.{Run, empty}
use agentic_memory_stack_for.Jobs.Kept.{Has, Has-map_fixed}
use agentic_memory_stack_for.Jobs.Distinct.{Distinct, reachable-IsNumbered}

-- A row without its claim.
abbrev pub released : Row → Row
released r = record r {
  state = queued;
  owner_host = none;
  owner_pid = none;
  owner_boot_id = none;
  claimed_at = none;
  reap_count = suc r.reap_count;
}

apply_all : List Row → Row → Row
apply_all [] r = r
apply_all (read ∷ reads) r = apply_all reads (requeue_row read r)

map-map : (f g : Row → Row) (rows : List Row) → map f (map g rows) ≡ map (λ r. f (g r)) rows
map-map f g [] = refl
map-map f g (r ∷ rs) = ap (λ l. f (g r) ∷ l) (map-map f g rs)

map_cong :
    (f g : Row → Row) (rows : List Row)
    → ((r : Row) → Has r rows → f r ≡ g r)
    → map f rows ≡ map g rows
map_cong f g [] h = refl
map_cong f g (r ∷ rs) h = rw (h r (inl refl), map_cong f g rs (λ x i. h x (inr i))) refl

map_same : (rows : List Row) → map (λ r. r) rows ≡ rows
map_same [] = refl
map_same (r ∷ rs) = ap (λ l. r ∷ l) (map_same rs)

rows-requeue_all :
    (reads : List Row) (t : Table) → (requeue_all reads t).rows ≡ map (apply_all reads) t.rows
unfolding requeue_all apply_all requeue
rows-requeue_all [] t = sym (map_same t.rows)
rows-requeue_all (read ∷ reads) t =
    rows-requeue_all reads (requeue read t) ∙ map-map (apply_all reads) (requeue_row read) t.rows

requeue_row-elsewhere : (read r : Row) → eqb r.id read.id ≡ false → requeue_row read r ≡ r
unfolding requeue_row
requeue_row-elsewhere read r h = ground arith

requeue_row-idle : (read r : Row) → is_running r.state ≡ false → requeue_row read r ≡ r
unfolding requeue_row
requeue_row-idle read r h = ground arith

is_number_refl : (o : Option ℕ) → is_number o o ≡ true
unfolding is_number
is_number_refl none = refl
is_number_refl (some n) = ground arith

eqb_refl : (n : ℕ) → eqb n n ≡ true
eqb_refl n = ground arith

requeue_row-same : (r : Row) → is_running r.state ≡ true → requeue_row r r ≡ released r
unfolding requeue_row
requeue_row-same r h =
    rw (eqb_refl r.id, h, is_number_refl r.owner_pid, is_number_refl r.claimed_at) refl

apply_all-elsewhere :
    (reads : List Row) (r : Row) → All (λ s. eqb r.id s.id ≡ false) reads → apply_all reads r ≡ r
unfolding apply_all
apply_all-elsewhere [] r h = refl
apply_all-elsewhere (read ∷ reads) r h =
    rw (requeue_row-elsewhere read r h.0) (apply_all-elsewhere reads r h.1)

apply_all-idle : (reads : List Row) (r : Row) → is_running r.state ≡ false → apply_all reads r ≡ r
unfolding apply_all
apply_all-idle [] r h = refl
apply_all-idle (read ∷ reads) r h = rw (requeue_row-idle read r h) (apply_all-idle reads r h)

eqb_sym : (m n : ℕ) → eqb m n ≡ false → eqb n m ≡ false
eqb_sym m n h = ground arith

All-Has : (P : Row → Type 0) (rows : List Row) (r : Row) → All P rows → Has r rows → P r
All-Has P [] r a h = elim h [ ]
All-Has P (x ∷ xs) r a (inl e) = rw (sym e) a.0
All-Has P (x ∷ xs) r a (inr h) = All-Has P xs r a.1 h

apply_all-here :
    (reads : List Row) (r : Row)
    → Distinct reads
    → is_running r.state ≡ true
    → Has r reads
    → apply_all reads r ≡ released r
unfolding apply_all is_running
apply_all-here [] r d a h = elim h [ ]
apply_all-here (read ∷ reads) r d a (inl e) =
    rw (e, requeue_row-same r a) (apply_all-idle reads (released r) refl)
apply_all-here (read ∷ reads) r d a (inr h) =
    rw (requeue_row-elsewhere read r (eqb_sym read.id r.id (All-Has _ reads r d.0 h)))
      (apply_all-here reads r d.1 a h)

All-filter :
    (p : Row → Bool) (Q : Row → Type 0) (rows : List Row)
    → ((s : Row) → Has s rows → p s ≡ true → Q s)
    → All Q (filter p rows)
unfolding filter
All-filter p Q [] h = tt
All-filter p Q (r ∷ rs) h =
    let rest = All-filter p Q rs (λ s i. h s (inr i)) in
    elim (Bool-cases (p r)) [ inl e ↦ rw e (h r (inl refl) e, rest) | inr e ↦ rw e rest ]

Distinct-filter : (p : Row → Bool) (rows : List Row) → Distinct rows → Distinct (filter p rows)
unfolding filter
Distinct-filter p [] d = tt
Distinct-filter p (r ∷ rs) d = elim (Bool-cases (p r)) [
  | inl e ↦ rw e (All-filter p _ rs (λ s i _. All-Has _ rs s d.0 i), Distinct-filter p rs d.1)
  | inr e ↦ rw e (Distinct-filter p rs d.1)
]

Has-filter :
    (p : Row → Bool) (rows : List Row) (r : Row) → p r ≡ true → Has r rows → Has r (filter p rows)
unfolding filter
Has-filter p [] r e h = elim h [ ]
Has-filter p (x ∷ xs) r e (inl d) = rw (d, e) (inl refl)
Has-filter p (x ∷ xs) r e (inr h) =
    let rest = Has-filter p xs r e h in
    elim (Bool-cases (p x)) [ inl b ↦ rw b (inr rest) | inr b ↦ rw b rest ]

Distinct-ids :
    (rows : List Row) (r s : Row)
    → Distinct rows
    → Has r rows
    → Has s rows
    → (r ≡ s) ⊎ (eqb r.id s.id ≡ false)
Distinct-ids [] r s d h i = elim h [ ]
Distinct-ids (x ∷ xs) r s d (inl e) (inl f) = inl (sym e ∙ f)
Distinct-ids (x ∷ xs) r s d (inl e) (inr i) = inr (rw (sym e) (All-Has _ xs s d.0 i))
Distinct-ids (x ∷ xs) r s d (inr h) (inl f) =
    inr (rw (sym f) (eqb_sym x.id r.id (All-Has _ xs r d.0 h)))
Distinct-ids (x ∷ xs) r s d (inr h) (inr i) = Distinct-ids xs r s d.1 h i

module _ (p : Process) (now : ℕ) (name : String) where
  abbrev pub release_if_stale : Row → Row
  release_if_stale r = if is_stale p now name r then released r else r

  running-stale : (r : Row) → is_stale p now name r ≡ true → is_running r.state ≡ true
  unfolding is_stale
  running-stale r h = ground arith

  released_or_kept :
      (rows : List Row) (r : Row)
      → Distinct rows
      → Has r rows
      → apply_all (filter (is_stale p now name) rows) r ≡ release_if_stale r
  released_or_kept rows r d h = elim (Bool-cases (is_stale p now name r)) [
    | inl e ↦ rw e (
        apply_all-here _ r (Distinct-filter _ rows d) (running-stale r e) (Has-filter _ rows r e h))
    | inr e ↦ rw e (
        apply_all-elsewhere _ r (
          All-filter (is_stale p now name) (λ s. eqb r.id s.id ≡ false) rows
            (λ s i f. elim (Distinct-ids rows r s d h i) [
              | inl same ↦ absurd (false≢true (sym e ∙ ap (is_stale p now name) same ∙ f))
              | inr apart ↦ apart
            ])))
  ]

  -- On every table that invocations can reach, a reap releases each row of its name that is
  -- running, is past its time and has no live owner on this host and boot, and leaves every other
  -- row as it is.
  pub reap-map : (t : Table) → Run empty t → (reap p now name t).rows ≡ map release_if_stale t.rows
  unfolding reap
  reap-map t run =
      rows-requeue_all (filter (is_stale p now name) t.rows) t
      ∙ map_cong _ release_if_stale t.rows
          (λ r h. released_or_kept t.rows r (reachable-IsNumbered t run).distinct h)

  release_if_stale-live : (r : Row) → is_live p r ≡ true → release_if_stale r ≡ r
  unfolding is_stale
  release_if_stale-live r h = ground arith

  -- On every table that invocations can reach, a reap leaves a row whose owner is a live process
  -- of this host and boot as it is.
  pub reap-live :
      (t : Table) (r : Row)
      → Run empty t
      → is_live p r ≡ true
      → Has r t.rows
      → Has r (reap p now name t).rows
  reap-live t r run live h =
      rw (reap-map t run) (Has-map_fixed release_if_stale r t.rows (release_if_stale-live r live) h)
