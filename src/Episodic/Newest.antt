-- ===== src/Episodic/Newest.antt =====
-- What the running summary keeps when it is cut.
use mathlib.Core.List.{reverse, reverse_aux, reverse-append, reverse-reverse}
use agentic_memory_stack_for.Prelude.{
  ℕ, zero, suc, ◌+◌, ◌≤◌, ◌<◌, ◌≡◌, refl, sym, ap, ◌∙◌, inl, inr, arith, false, not, Option, none,
  some, List, [], ◌∷◌, ◌++◌, ltb, leb, length, length-append, filter, Bool-cases, take, length-take,
}
use agentic_memory_stack_for.Episodic.Words.{Words, join}
use agentic_memory_stack_for.Episodic.Summary.{
  running_summary_sep, running_summary_gap, segments, is_gap, head_of, tail_of, cost, newest,
  trimmed, joined, append_snippet, append_running_summary, or_empty,
}

abbrev costs : List Words → ℕ
costs [] = 0
costs (s ∷ ss) = cost s + costs ss

costs-reverse_aux : (xs ys : List Words) → costs (reverse_aux xs ys) ≡ costs xs + costs ys
costs-reverse_aux [] ys = omega arith
costs-reverse_aux (x ∷ xs) ys = omega (arith, costs-reverse_aux xs (x ∷ ys))

-- The segments that fit, newest first, and those that do not.
record Split (cap used : ℕ) (kept segs : List Words) : Type 0 where
  fits : List Words
  rest : List Words
  split : segs ≡ fits ++ rest
  result : newest cap used kept segs ≡ reverse_aux fits kept
  room : used ≤ cap → used + costs fits ≤ cap
  full : (d : Words) (ds : List Words) → rest ≡ d ∷ ds → cap < used + costs fits + cost d

first_segment : (s d : Words) (ss ds : List Words) → s ∷ ss ≡ d ∷ ds → s ≡ d
first_segment s d ss ds h = cc

newest-Split : (cap used : ℕ) (kept segs : List Words) → Split cap used kept segs
unfolding newest
newest-Split cap used kept [] = record {
  fits = [];
  rest = [];
  split = refl;
  result = refl;
  room = λ h. omega arith;
  full = λ d ds h. cc;
}
newest-Split cap used kept (s ∷ ss) = elim (Bool-cases (ltb cap (used + cost s))) [
  | inl e ↦ record {
    fits = [];
    rest = s ∷ ss;
    split = refl;
    result = rw (e, newest) refl;
    room = λ h. omega arith;
    full = λ d ds h. rw (← first_segment s d ss ds h) (ground arith);
  }
  | inr e ↦
      let r = newest-Split cap (used + cost s) (s ∷ kept) ss in
      record {
        fits = s ∷ r.fits;
        rest = r.rest;
        split = ap (◌∷◌ s) r.split;
        result = rw (e, newest) r.result;
        room = λ h. omega (arith, r.room (ground arith));
        full = λ d ds h. omega (arith, r.full d ds h);
      }
]

-- `whole` is `first`, the gap marker and `kept`, the newest segments of `segs` that fit under `cap`.
pub record IsNewest (cap : ℕ) (first : Words) (segs : List Words) (whole : Words) : Type 0 where
  pub dropped : List Words
  pub kept : List Words
  pub split : segs ≡ dropped ++ kept
  pub whole_lem : whole ≡ join running_summary_sep (first ∷ running_summary_gap ∷ kept)
  pub fits : length whole ≤ cap
  pub full :
      (before : List Words) (d : Words)
      → dropped ≡ before ++ (d ∷ [])
      → cap < length first + 4 + costs kept + cost d

length-join :
    (x : Words) (xs : List Words) → length (join running_summary_sep (x ∷ xs)) ≡ length x + costs xs
unfolding join
length-join x [] = omega arith
length-join x (y ∷ ys) = omega (
  arith,
  length-append x (running_summary_sep ++ join running_summary_sep (y ∷ ys)),
  length-join y ys,
)

take_all : (n : ℕ) (xs : Words) → length xs ≤ n → take n xs ≡ xs
take_all zero [] h = refl
take_all zero (x ∷ xs) h = absurd (omega arith)
take_all (suc n) [] h = refl
take_all (suc n) (x ∷ xs) h = ap (◌∷◌ x) (take_all n xs (omega arith))

trimmed-IsNewest :
    (cap : ℕ) (first r : Words) (rs : List Words)
    → length first + 4 ≤ cap
    → IsNewest cap first (r ∷ rs) (trimmed cap first (r ∷ rs))
trimmed-IsNewest cap first r rs h =
    let n = newest-Split cap (length first + 3 + 1) [] (reverse (r ∷ rs)) in
    let kept = reverse n.fits in
    let whole = join running_summary_sep (first ∷ running_summary_gap ∷ kept) in
    let split : r ∷ rs ≡ reverse n.rest ++ kept =
      sym (reverse-reverse (r ∷ rs)) ∙ ap reverse n.split ∙ reverse-append n.fits n.rest in
    let size : length whole ≡ length first + 4 + costs n.fits =
      omega (arith, length-join first (running_summary_gap ∷ kept), costs-reverse_aux n.fits []) in
    let room : length whole ≤ cap = omega (arith, size, n.room (omega arith)) in
    let result : trimmed cap first (r ∷ rs) ≡ whole =
      ap (λ k. take cap (join running_summary_sep (first ∷ running_summary_gap ∷ k))) n.result
      ∙ take_all cap whole room in
    record {
      dropped = reverse n.rest;
      kept = kept;
      split = split;
      whole_lem = result;
      fits = rw result room;
      full = λ before d e. omega (
        arith,
        costs-reverse_aux n.fits [],
        n.full d (reverse before)
            (sym (reverse-reverse n.rest) ∙ ap reverse e ∙ reverse-append before (d ∷ [])),
      );
    }

trimmed-le-cap :
    (cap : ℕ) (first : Words) (rest : List Words) → length (trimmed cap first rest) ≤ cap
trimmed-le-cap cap first [] = length-take cap first
trimmed-le-cap cap first (r ∷ rs) = length-take cap _

append_snippet-le-cap :
    (existing : Words) (snippet : Option Words) (cap : ℕ)
    → length existing ≤ cap
    → length (append_snippet existing snippet cap) ≤ cap
append_snippet-le-cap existing none cap h = h
append_snippet-le-cap existing (some []) cap h = h
append_snippet-le-cap existing (some (c ∷ cs)) cap h =
    let whole = joined existing (c ∷ cs) in
    let segs = segments whole in
    elim (Bool-cases (leb (length whole) cap)) [
      | inl e ↦ rw e (ground arith)
      | inr e ↦
          rw e (trimmed-le-cap cap (head_of segs) (filter (λ s. not (is_gap s)) (tail_of segs)))
    ]

pub append_running_summary-le-cap :
    (existing snippet : Option Words) (cap : ℕ)
    → length (or_empty existing) ≤ cap
    → length (append_running_summary existing snippet cap) ≤ cap
unfolding append_running_summary
append_running_summary-le-cap existing snippet cap h =
    append_snippet-le-cap (or_empty existing) snippet cap h

-- When the summary with a new snippet is over the cap, the first segment and the marker fit under
-- the cap, and segments follow the first that are no marker, the result is the first segment, the
-- marker and the newest segments that fit, and the next older one would not have fitted.
pub append_running_summary-IsNewest :
    (existing : Option Words) (snippet : ℕ) (more r : Words) (rs : List Words) (cap : ℕ)
    → let whole = joined (or_empty existing) (snippet ∷ more) in
      let first = head_of (segments whole) in
      cap < length whole
      → length first + 4 ≤ cap
      → filter (λ s. not (is_gap s)) (tail_of (segments whole)) ≡ r ∷ rs
      → IsNewest cap first (r ∷ rs) (append_running_summary existing (some (snippet ∷ more)) cap)
unfolding append_running_summary
append_running_summary-IsNewest existing snippet more r rs cap h k e =
    let whole = joined (or_empty existing) (snippet ∷ more) in
    let over : leb (length whole) cap ≡ false = ground arith in
    rw (over, e) (trimmed-IsNewest cap (head_of (segments whole)) r rs k)
