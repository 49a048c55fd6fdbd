-- ===== src/PairCache/Store.antt =====
-- mem0-server/pair_cache.py: the key of a pair, and the reads and writes of the `verdicts` table, a map by
-- its primary key. Every call may fail; SHA-256 is an argument; a time counts microseconds.
use Prim.Native.String.{◌++◌, compare}
use Prim.Native.Nat.{Ordering}
use agentic_memory_stack_for.Prelude.{
  ℕ, ◌+◌, String, Bool, true, false, Option, none, some, ◌==◌, ltb, if◌then◌else◌,
}

pub record Row : Type 0 where
  pub verdict : Bool
  pub question_type : String
  pub judge_mode : String
  pub created : ℕ

abbrev pub Table : Type 0
Table = String → Option Row

abbrev pub ttl : ℕ
ttl = 2592000000000

unfoldable pub join_pair : Ordering → String → String → String
join_pair Ordering.lt a b = a ++ "|" ++ b
join_pair Ordering.eq a b = a ++ "|" ++ b
join_pair Ordering.gt a b = b ++ "|" ++ a

-- `"|".join(sorted((a, b)))`
unfoldable pub sorted_pair : String → String → String
sorted_pair a b = join_pair (compare a b) a b

unfoldable pub make_key :
    (String → String) → String → String → String → String → String → String → String
make_key hash question_type judge_mode model prompt_version text_a text_b =
    let pair =
      if question_type == "contradiction"
      then sorted_pair (hash text_a) (hash text_b)
      else hash text_a ++ "|" ++ hash text_b in
    question_type ++ "|" ++ judge_mode ++ "|" ++ model ++ "|" ++ prompt_version ++ "|" ++ pair

-- The row has expired.
unfoldable pub is_expired : ℕ → Row → Bool
is_expired now r = ltb (r.created + ttl) now

unfoldable pub live : ℕ → Option Row → Option (Bool × ℕ)
live now none = none
live now (some r) = if is_expired now r then none else some (r.verdict, r.created)

-- `works` says that no call of SQLite raises.
unfoldable pub get_with_ts : Bool → ℕ → String → Table → Option (Bool × ℕ)
get_with_ts works now key t = if works then live now (t key) else none

abbrev pub verdict_of : Option (Bool × ℕ) → Option Bool
verdict_of none = none
verdict_of (some (verdict, created)) = some verdict

unfoldable pub get : Bool → ℕ → String → Table → Option Bool
get works now key t = verdict_of (get_with_ts works now key t)

-- `INSERT OR REPLACE`
unfoldable pub insert : String → Row → Table → Table
insert key r t k = if key == k then some r else t k

unfoldable pub kept : ℕ → Option Row → Option Row
kept now none = none
kept now (some r) = if is_expired now r then none else some r

-- `DELETE FROM verdicts WHERE created_ts < now - ttl`
unfoldable pub delete_expired : ℕ → Table → Table
delete_expired now t k = kept now (t k)

-- A verdict that is no boolean is `none`, and is never written.
unfoldable pub put : Bool → ℕ → String → Option Bool → String → String → Table → Bool × Table
put works now key none question_type judge_mode t = (false, t)
put works now key (some verdict) question_type judge_mode t =
    if works
    then (
      true,
      delete_expired now (
          insert key
            (record {
              verdict = verdict;
              question_type = question_type;
              judge_mode = judge_mode;
              created = now;
            })
            t),
    )
    else (false, t)
