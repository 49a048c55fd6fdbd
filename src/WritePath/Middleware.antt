-- ===== src/WritePath/Middleware.antt =====
-- mem0-server/write_path.py: the HTTP middleware that feeds the tracker. A response is its status, the
-- neutral mark of its request, and the first chunk of its body.
use Prim.Native.Char.{code}
use agentic_memory_stack_for.Prelude.{
  ℕ, String, Bool, false, not, ◌&&◌, Option, none, some, ◌==◌, leb, ltb, eqb, if◌then◌else◌,
}
use agentic_memory_stack_for.Prelude.Text.{is_empty, strip, translate, lowers, uppers}
use agentic_memory_stack_for.Payload.{Value, scalar, str}
use agentic_memory_stack_for.WritePath.Tracker.{Tracker, record_write}

-- The chunk: none or one that is too big, text that is no JSON, JSON that is no object, or an object
-- with what it has under `reason`.
pub data Chunk : Type 0 where
  unread : Chunk
  not_json : Chunk
  not_object : Chunk
  object : Value → Chunk

pub data Answer : Type 0 where
  raised : Answer
  response : ℕ → Bool → Chunk → Answer

pub record Request : Type 0 where
  pub method : String
  pub path : String
  pub answer : Answer
  pub time : ℕ

abbrev pub write_path_prefix : String
write_path_prefix = "/v1/memories"

unfoldable pub upper : String → String
upper String.[] = String.[]
upper (String.◌∷◌ c s) = String.◌∷◌ (translate lowers uppers c) (upper s)

-- `path.rpartition("/")`, `none` where there is no slash.
unfoldable pub rpartition : String → Option (String × String)
rpartition String.[] = none
rpartition (String.◌∷◌ c s) =
    let rest = rpartition s in
    elim rest [
      | some (head, tail) ↦ some (String.◌∷◌ c head, tail)
      | none ↦ if eqb (code c) b'/' then some ("", s) else none
    ]

abbrev pub is_record_path : Option (String × String) → Bool
is_record_path none = false
is_record_path (some (head, memory_id)) = (head == write_path_prefix) && not (is_empty memory_id)

unfoldable pub is_write_request : String → String → Bool
is_write_request method path =
    let verb = upper method in
    if verb == "POST"
    then path == write_path_prefix
    else if verb == "PUT"
    then is_record_path (rpartition path)
    else false

unfoldable pub reason_from : Chunk → Option String
reason_from (object (scalar (str reason))) = if is_empty (strip reason) then none else some reason
reason_from c = none

module _ (window : ℕ) where
  unfoldable pub record_response : ℕ → Bool → Chunk → ℕ → Tracker → Tracker
  record_response status neutral chunk now w =
      if leb 200 status && ltb status 300 && neutral
      then w
      else record_write window status (if leb 500 status then reason_from chunk else none) now w

  unfoldable pub record_answer : Answer → ℕ → Tracker → Tracker
  record_answer raised now w = record_write window 500 none now w
  record_answer (response status neutral chunk) now w = record_response status neutral chunk now w

  unfoldable pub middleware : Request → Tracker → Tracker
  middleware r w = if is_write_request r.method r.path then record_answer r.answer r.time w else w
