-- ===== src/Sweep/Rotation.antt =====
-- The rotating budget: `order_canonicals`, the cut of `--limit`, and `sweep_coverage`. A time counts
-- microseconds; one that is absent or does not parse is `none`.
use Prim.Native.Nat.{◌/◌}
use agentic_memory_stack_for.Prelude.Codes.{str_lt}
use agentic_memory_stack_for.Prelude.{
  ℕ, zero, suc, ◌+◌, ◌-◌, String, Bool, true, false, Option, none, some, List, [], ◌∷◌, ◌++◌, ltb,
  eqb, if◌then◌else◌, drop, take,
}

pub record Canonical : Type 0 where
  pub id : String
  pub contradiction_checked_at : Option ℕ

-- `_checked_epoch`: no check is minus infinity.
abbrev pub epoch_lt : Option ℕ → Option ℕ → Bool
epoch_lt o none = false
epoch_lt none (some t) = true
epoch_lt (some s) (some t) = ltb s t

-- The key of the sort: the time of the check, then the id.
unfoldable pub before : Canonical → Canonical → Bool
before a b =
    let s = a.contradiction_checked_at in
    let t = b.contradiction_checked_at in
    if epoch_lt s t then true else if epoch_lt t s then false else str_lt a.id b.id

unfoldable pub insert : Canonical → List Canonical → List Canonical
insert c [] = c ∷ []
insert c (d ∷ ds) = let rest = insert c ds in if before d c then d ∷ rest else c ∷ d ∷ ds

unfoldable pub order_canonicals : List Canonical → List Canonical
unfolding insert
order_canonicals [] = []
order_canonicals (c ∷ cs) = insert c (order_canonicals cs)

-- The rotation marker, where the server takes it.
unfoldable pub mark : (Canonical → Bool) → ℕ → Canonical → Canonical
mark takes now c = if takes c then record c { contradiction_checked_at = some now } else c

-- What the loop meets at a canonical: no text, user or vector; a failed candidate query; a judge
-- that ends the run; or candidates that are all looked at.
pub data Visit : Type 0 where
  unsweepable query_failed aborted swept : Visit

pub record Service : Type 0 where
  pub visit : Canonical → Visit
  -- Whether the server takes the rotation marker.
  pub takes : Canonical → Bool

-- The turn of the loop for `c`, before what the loop does with the rest `cs`.
unfoldable pub turn :
    Service → ℕ → Canonical → List Canonical → Visit → ℕ × List Canonical → ℕ × List Canonical
unfolding mark
turn s now c cs unsweepable (checked, rest) = (checked, mark s.takes now c ∷ rest)
turn s now c cs query_failed (checked, rest) = (checked, c ∷ rest)
turn s now c cs aborted (checked, rest) = (0, c ∷ cs)
turn s now c cs swept (checked, rest) =
    (if s.takes c then suc checked else checked, mark s.takes now c ∷ rest)

-- The canonicals that were checked, and all of them as the loop leaves them.
unfoldable pub sweep_loop : Service → ℕ → List Canonical → ℕ × List Canonical
unfolding turn
sweep_loop s now [] = (0, [])
sweep_loop s now (c ∷ cs) = turn s now c cs (s.visit c) (sweep_loop s now cs)

-- One run in apply mode: `canonicals_checked`, and the canonicals. No limit means all.
unfoldable pub sweep_run : Service → ℕ → ℕ → List Canonical → ℕ × List Canonical
unfolding order_canonicals sweep_loop
sweep_run s zero now cs = sweep_loop s now (order_canonicals cs)
sweep_run s (suc n) now cs =
    let ordered = order_canonicals cs in
    let (checked, marked) = sweep_loop s now (take (suc n) ordered) in
    (checked, marked ++ drop (suc n) ordered)

-- Runs at the times of the list, the first one first.
unfoldable pub sweep_runs : Service → ℕ → List ℕ → List Canonical → List Canonical
unfolding sweep_run
sweep_runs s limit [] cs = cs
sweep_runs s limit (now ∷ ts) cs = sweep_runs s limit ts (sweep_run s limit now cs).1

-- `weeks_for_full_pass`
unfoldable pub weeks_for_full_pass : ℕ → ℕ → Option ℕ
weeks_for_full_pass total processed =
    if eqb total 0
    then some 0
    else if eqb processed 0
    then none
    else some ((total + (processed - 1)) / processed)
