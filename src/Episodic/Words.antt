-- ===== src/Episodic/Words.antt =====
-- Texts as lists of code points: slices, prefixes, `split` and `join`.
use agentic_memory_stack_for.Prelude.{
  ℕ, zero, suc, Bool, true, false, ◌&&◌, ◌||◌, List, [], ◌∷◌, ◌++◌, eqb, if◌then◌else◌, length,
}

abbrev pub Words : Type 0
Words = List ℕ

-- `text.startswith(prefix)`
abbrev pub starts_with : Words → Words → Bool
starts_with text [] = true
starts_with [] (p ∷ ps) = false
starts_with (c ∷ cs) (p ∷ ps) = eqb c p && starts_with cs ps

abbrev member : ℕ → List ℕ → Bool
member n [] = false
member n (x ∷ xs) = eqb n x || member n xs

-- `text.lstrip(chars)`
unfoldable pub lstrip : List ℕ → Words → Words
lstrip chars [] = []
lstrip chars (c ∷ cs) = let rest = lstrip chars cs in if member c chars then rest else c ∷ cs

-- `text.split(sep)` of a separator that starts with `s` and goes on with `ss`: `skip` characters of a
-- separator are still to be passed over, and `seg` is the segment so far.
unfoldable pub split_from : ℕ → Words → ℕ → Words → Words → List Words
split_from s ss skip seg [] = seg ∷ []
split_from s ss (suc skip) seg (c ∷ cs) = split_from s ss skip seg cs
split_from s ss zero seg (c ∷ cs) = elim (starts_with (c ∷ cs) (s ∷ ss)) [
  | true ↦ seg ∷ split_from s ss (length ss) [] cs
  | false ↦ split_from s ss zero (seg ++ (c ∷ [])) cs
]

-- `sep.join(segs)`
unfoldable pub join : Words → List Words → Words
join sep [] = []
join sep (x ∷ []) = x
join sep (x ∷ y ∷ xs) = x ++ (sep ++ join sep (y ∷ xs))
