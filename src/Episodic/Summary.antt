-- ===== src/Episodic/Summary.antt =====
-- The running summary of an unfinished episode: `_append_running_summary` and
-- `scrub_running_summary`.
use agentic_memory_stack_for.Prelude.Codes.{same}
use agentic_memory_stack_for.Prelude.{
  ℕ, ◌+◌, Bool, true, false, not, Option, none, some, List, [], ◌∷◌, ◌++◌, ltb, leb, if◌then◌else◌,
  length, filter, take,
}
use mathlib.Core.List.{reverse}
use agentic_memory_stack_for.Episodic.Words.{Words, split_from, join}
use agentic_memory_stack_for.Episodic.Turn.{is_non_human_preview}

-- `" | "`, the horizontal ellipsis, and the cap.
abbrev pub running_summary_sep : Words
running_summary_sep = 32 ∷ 124 ∷ 32 ∷ []

abbrev pub running_summary_gap : Words
running_summary_gap = 0x2026 ∷ []

abbrev pub running_summary_cap : ℕ
running_summary_cap = 800

unfoldable pub segments : Words → List Words
unfolding split_from
segments text = split_from 32 (124 ∷ 32 ∷ []) 0 [] text

abbrev pub is_gap : Words → Bool
is_gap seg = same seg running_summary_gap

abbrev pub head_of : List Words → Words
head_of [] = []
head_of (x ∷ xs) = x

abbrev pub tail_of : List Words → List Words
tail_of [] = []
tail_of (x ∷ xs) = xs

abbrev pub cost : Words → ℕ
cost seg = length running_summary_sep + length seg

-- The loop over the reversed segments: the newest that fit, oldest first.
unfoldable pub newest : ℕ → ℕ → List Words → List Words → List Words
newest cap used kept [] = kept
newest cap used kept (seg ∷ segs) = elim (ltb cap (used + cost seg)) [
  | true ↦ kept
  | false ↦ newest cap (used + cost seg) (seg ∷ kept) segs
]

-- A summary over the cap: its first segment, the gap marker and the newest.
abbrev pub trimmed : ℕ → Words → List Words → Words
trimmed cap first [] = take cap first
trimmed cap first (r ∷ rs) = take cap (
    join running_summary_sep (
      first
      ∷ running_summary_gap
      ∷ newest cap (length first + length running_summary_sep + length running_summary_gap) []
          (reverse (r ∷ rs))))

abbrev pub joined : Words → Words → Words
joined [] snippet = snippet
joined (c ∷ cs) snippet = (c ∷ cs) ++ running_summary_sep ++ snippet

abbrev pub or_empty : Option Words → Words
or_empty none = []
or_empty (some s) = s

-- No snippet, or an empty one, leaves the summary as it is.
abbrev pub append_snippet : Words → Option Words → ℕ → Words
append_snippet existing none cap = existing
append_snippet existing (some []) cap = existing
append_snippet existing (some (c ∷ cs)) cap =
    let whole = joined existing (c ∷ cs) in
    let segs = segments whole in
    if leb (length whole) cap
    then whole
    else trimmed cap (head_of segs) (filter (λ s. not (is_gap s)) (tail_of segs))

unfoldable pub append_running_summary : Option Words → Option Words → ℕ → Words
unfolding segments newest join filter
append_running_summary existing snippet cap = append_snippet (or_empty existing) snippet cap

unfoldable drop_gaps : List Words → List Words
drop_gaps [] = []
drop_gaps (s ∷ ss) = let rest = drop_gaps ss in if is_gap s then rest else s ∷ ss

-- None and the empty text pass through.
abbrev scrub : Words → Words
scrub [] = []
scrub (c ∷ cs) =
    let kept = filter (λ s. not (is_non_human_preview s)) (segments (c ∷ cs)) in
    join running_summary_sep (reverse (drop_gaps (reverse (drop_gaps kept))))

unfoldable scrub_running_summary : Option Words → Option Words
unfolding segments drop_gaps join filter
scrub_running_summary none = none
scrub_running_summary (some text) = some (scrub text)
