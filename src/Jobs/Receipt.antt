-- ===== src/Jobs/Receipt.antt =====
-- scripts/wsl/jobs.py: `observe_receipt`. A receipt file is its list of lines, each as `json.loads`
-- reads it; the reading of a timestamp is an argument.
use agentic_memory_stack_for.Prelude.{
  ℕ, ◌+◌, ◌-◌, String, Bool, false, ◌&&◌, Option, none, some, List, [], ◌∷◌, leb, if◌then◌else◌,
  length, drop,
}
use agentic_memory_stack_for.Jobs.Queue.{is_text}

-- A line that is no JSON, JSON that is no object, or an object with its `jobs_key`, its `outcome` and its
-- `ts`, each as text.
pub data Line : Type 0 where
  not_json : Line
  not_object : Line
  object : Option String → Option String → String → Line

-- What the search for a receipt finds. `.get` on JSON that is no object raises AttributeError.
pub data Observed : Type 0 where
  nothing : Observed
  seen : String → Observed
  crashed : Observed

abbrev pub tail_lines : ℕ
tail_lines = 200

abbrev pub grace : ℕ
grace = 1000000

-- The finding of a later line decides.
unfoldable pub prefer : Observed → Observed → Observed
prefer nothing earlier = earlier
prefer (seen outcome) earlier = seen outcome
prefer crashed earlier = crashed

module _ (instant : String → Option ℕ) (key : String) (claimed_at : ℕ) where
  -- The receipt is no older than the claim, but for the grace.
  unfoldable pub is_recent : Option ℕ → Bool
  is_recent none = false
  is_recent (some t) = leb claimed_at (t + grace)

  unfoldable pub check_line : Line → Observed
  check_line not_json = nothing
  check_line not_object = crashed
  check_line (object k none ts) = nothing
  check_line (object k (some outcome) ts) =
      if is_text k key && is_recent (instant ts) then seen outcome else nothing

  -- The lines from the last to the first, up to the first that decides.
  unfoldable pub search : List Line → Observed
  search [] = nothing
  search (l ∷ ls) = prefer (search ls) (check_line l)

  -- `none` is a file that is not there or that cannot be read.
  unfoldable pub observe_receipt : Option (List Line) → Observed
  observe_receipt none = nothing
  observe_receipt (some lines) = search (drop (length lines - tail_lines) lines)
