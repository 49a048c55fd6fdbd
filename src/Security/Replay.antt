-- ===== src/Security/Replay.antt =====
-- mem0-server/security_invariants.py: the replay store, a file of JSON lines that each carry the
-- nonce and the timestamp of one accepted token. A file is its list of lines, each as `json.loads`
-- reads it; that the file is long enough for a rewrite is an argument. Time counts microseconds.
use agentic_memory_stack_for.Prelude.{
  ℕ, ◌+◌, String, Bool, true, false, ◌||◌, Option, none, some, List, [], ◌∷◌, ◌++◌, ltb, ◌==◌,
  if◌then◌else◌,
}

-- `datetime.fromisoformat(ts.replace("Z", "+00:00"))`: a ValueError, a time without a zone, or an
-- instant. Comparing a naive time with an aware one raises TypeError.
pub data Instant : Type 0 where
  unreadable : Instant
  naive : Instant
  aware : ℕ → Instant

-- A line of the store: blank, not JSON, or an object with its nonce and its timestamp, if any.
pub data Line : Type 0 where
  blank : Line
  broken : Line
  entry : Option String → Option String → Line

abbrev pub second : ℕ
second = 1000000

abbrev pub canonical_token_max_skew : ℕ
canonical_token_max_skew = 300000000

abbrev pub replay_gc : ℕ
replay_gc = 600000000

-- `x or ""`, also `entry.get("ts", "")`.
abbrev pub given : Option String → String
given none = ""
given (some s) = s

abbrev pub holds : Option String → String → Bool
holds none nonce = false
holds (some n) nonce = n == nonce

-- What the scan of the file leaves: `seen` and `fresh_entries`, or a TypeError.
pub data Scan : Type 0 where
  scanned : Bool → List Line → Scan
  type_error : Scan

unfoldable pub keep_entry : ℕ → ℕ → Bool → Line → Scan → Scan
keep_entry t now same line type_error = type_error
keep_entry t now same line (scanned seen fresh) =
    if ltb (t + replay_gc) now then scanned seen fresh else scanned (same || seen) (line ∷ fresh)

unfoldable pub read_entry : Instant → ℕ → Bool → Line → Scan → Scan
read_entry unreadable now same line rest = rest
read_entry naive now same line rest = type_error
read_entry (aware t) now same line rest = keep_entry t now same line rest

unfoldable pub scan : (String → Instant) → ℕ → String → List Line → Scan
scan instant now nonce [] = scanned false []
scan instant now nonce (blank ∷ lines) = scan instant now nonce lines
scan instant now nonce (broken ∷ lines) = scan instant now nonce lines
scan instant now nonce (entry n ts ∷ lines) =
    read_entry (instant (given ts)) now (holds n nonce) (entry n ts) (scan instant now nonce lines)

pub data Verdict : Type 0 where
  fresh : List Line → Verdict
  replayed : Verdict
  crashed : Verdict

-- A new nonce is appended to a short file; a long file is rewritten with the live entries.
unfoldable pub record_nonce : Bool → List Line → String → String → Scan → Verdict
record_nonce large store nonce ts type_error = crashed
record_nonce large store nonce ts (scanned true live) = replayed
record_nonce large store nonce ts (scanned false live) =
    fresh ((if large then live else store) ++ (entry (some nonce) (some ts) ∷ []))

unfoldable pub check_and_record_nonce :
    (String → Instant) → (List Line → Bool) → ℕ → String → String → List Line → Verdict
check_and_record_nonce instant large now nonce ts store =
    record_nonce (large store) store nonce ts (scan instant now nonce store)
