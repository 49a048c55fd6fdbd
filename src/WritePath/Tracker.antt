-- ===== src/WritePath/Tracker.antt =====
-- mem0-server/write_path.py: `WritePathTracker`. A deque is a list with its newest stamp first; a time
-- counts microseconds.
use Prim.Native.String.{◌++◌}
use agentic_memory_stack_for.Prelude.{
  ℕ, suc, ◌+◌, String, Bool, true, false, not, ◌&&◌, Option, none, some, List, [], ◌∷◌, leb, ltb,
  if◌then◌else◌,
}
use agentic_memory_stack_for.Prelude.Text.{is_empty, is_space, lstrip, rstrip, take}
use agentic_memory_stack_for.Payload.{decimal}

abbrev pub max_reason_chars : ℕ
max_reason_chars = 64

abbrev begins_with_space : String → Bool
begins_with_space String.[] = true
begins_with_space (String.◌∷◌ c s) = is_space c

-- Each run of white space becomes one space, and none is left at the end.
squeeze : String → String
squeeze String.[] = ""
squeeze (String.◌∷◌ c s) =
    let rest = squeeze s in
    if is_space c then (if begins_with_space rest then rest else " " ++ rest) else String.◌∷◌ c rest

-- `_clean_reason`
unfoldable pub clean_reason : Option String → String
unfolding squeeze
clean_reason none = "upstream"
clean_reason (some reason) =
    let text = rstrip is_space (take max_reason_chars (lstrip is_space (squeeze reason))) in
    if is_empty text then "upstream" else text

pub record Tracker : Type 0 where
  pub writes : List ℕ
  pub errors : List ℕ
  pub failing : Bool
  pub last_ok_at : Option ℕ
  pub last_error_at : Option ℕ
  pub last_error : Option String

-- `__init__`, and what `reset` leaves.
abbrev pub reset : Tracker
reset = record {
  writes = [];
  errors = [];
  failing = false;
  last_ok_at = none;
  last_error_at = none;
  last_error = none;
}

abbrev is_nil : List ℕ → Bool
is_nil [] = true
is_nil (t ∷ ts) = false

-- A 2xx succeeded, a 5xx failed, anything else says nothing.
unfoldable pub outcome_of : ℕ → Option Bool
outcome_of status =
    if leb 200 status && ltb status 300
    then some false
    else if leb 500 status && ltb status 600
    then some true
    else none

-- What `snapshot` publishes.
pub record Published : Type 0 where
  pub ok : Bool
  pub last_ok_at : Option ℕ
  pub last_error_at : Option ℕ
  pub last_error : Option String
  pub errors_1h : ℕ
  pub writes_1h : ℕ

module _ (window : ℕ) where
  -- The stamp has left the window.
  unfoldable pub is_aged : ℕ → ℕ → Bool
  is_aged now t = leb (t + window) now

  -- The oldest stamps are popped while they have left the window.
  unfoldable pub pop_aged : ℕ → List ℕ → List ℕ
  pop_aged now [] = []
  pop_aged now (t ∷ ts) =
      let rest = pop_aged now ts in if is_nil rest && is_aged now t then [] else t ∷ rest

  unfoldable pub prune : ℕ → Tracker → Tracker
  prune now w = record w { writes = pop_aged now w.writes; errors = pop_aged now w.errors }

  unfoldable pub note : Option Bool → ℕ → Option String → ℕ → Tracker → Tracker
  note none status reason now w = w
  note (some true) status reason now w =
      let p = prune now w in
      record p {
        writes = now ∷ p.writes;
        errors = now ∷ p.errors;
        failing = true;
        last_error_at = some now;
        last_error = some (decimal status ++ " " ++ clean_reason reason);
      }
  note (some false) status reason now w =
      let p = prune now w in
      record p { writes = now ∷ p.writes; failing = false; last_ok_at = some now }

  -- `record`
  unfoldable pub record_write : ℕ → Option String → ℕ → Tracker → Tracker
  record_write status reason now w = note (outcome_of status) status reason now w

  -- The newest stamps, up to the first that has left the window.
  unfoldable pub count_after : ℕ → List ℕ → ℕ
  count_after now [] = 0
  count_after now (t ∷ ts) = let rest = count_after now ts in if is_aged now t then 0 else suc rest

  abbrev pub published : ℕ → Tracker → Published
  published now w = record {
    ok = not w.failing;
    last_ok_at = w.last_ok_at;
    last_error_at = w.last_error_at;
    last_error = w.last_error;
    errors_1h = count_after now w.errors;
    writes_1h = count_after now w.writes;
  }

  -- The window is pruned only when `now` is the wall clock.
  unfoldable pub snapshot : Bool → ℕ → Tracker → Published × Tracker
  snapshot wall_clock now w = let p = if wall_clock then prune now w else w in (published now p, p)
