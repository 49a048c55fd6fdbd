-- ===== src/Supersession/Rules.antt =====
-- mem0-server/supersession.py: the refusal matrix and the rules that the other write paths share.
-- A refusal keeps its HTTP status and its code; the message for the operator is left out.
use mathlib.Core.List
use Prim.Native.String.{◌++◌ as ◌concat◌}
use agentic_memory_stack_for.Prelude.{
  ℕ, String, Bool, true, false, not, ◌&&◌, ◌||◌, Option, none, some, List, [], ◌∷◌, ◌==◌, ltb,
  length, drop, any, or_else, ◌++◌, ◌-◌, if◌then◌else◌,
}
use agentic_memory_stack_for.Prelude.Text
use agentic_memory_stack_for.Prelude.Text.{is_empty, strip, lower, mem}
use agentic_memory_stack_for.Prelude.Dict.{Dict}
use agentic_memory_stack_for.Payload.{
  Scalar, Item, Value, Payload, str, atom, entry, items, text, truthy, field, entry_field,
  value_text, text_or_empty, scalar_or_empty, is_text, in_texts, is_null, is_false,
}
use agentic_memory_stack_for.Supersession.Ids.{is_memory_id, norm_id}

pub record Refusal : Type 0 where
  pub status : ℕ
  pub code : String

abbrev pub refusal : ℕ → String → Refusal
refusal status code = record { status = status; code = code }

abbrev pub endpoint_actor : String
endpoint_actor = "supersede-endpoint"

abbrev pub protected_tiers : List String
protected_tiers = "canonical" ∷ "insight" ∷ []

abbrev pub detail_max_chars : ℕ
detail_max_chars = 300

abbrev pub reason_max_chars : ℕ
reason_max_chars = 500

abbrev pub partial_max_entries : ℕ
partial_max_entries = 20

abbrev pub full_keys : List String
full_keys = "superseded_by" ∷ "superseded_at" ∷ "superseded_via" ∷ []

abbrev pub partial_keys : List String
partial_keys = "partially_superseded_by" ∷ []

abbrev pub tier : Payload → Value
tier p = field "tier" p

-- A record with no tier counts as canonical.
unfoldable pub is_protected : Value → Bool
is_protected t = is_null t || in_texts t protected_tiers

unfoldable pub retired : Payload → Bool
retired p = is_false (field "retrievable" p) || truthy (field "retired_at" p)

unfoldable pub brand : Payload → List String → String
brand p shared_brands =
    let b = lower (strip (text_or_empty (field "brand" p))) in
    if mem b (List.map (λ s. lower (strip s)) shared_brands) then "" else b

unfoldable pub entries_of : List Item → List (Dict Scalar)
entries_of [] = []
entries_of (atom v ∷ xs) = entries_of xs
entries_of (entry e ∷ xs) = e ∷ entries_of xs

unfoldable pub partials_of : Value → List (Dict Scalar)
unfolding entries_of
partials_of (items xs) = entries_of xs
partials_of v = []

unfoldable pub partials : Payload → List (Dict Scalar)
unfolding partials_of
partials p = partials_of (field "partially_superseded_by" p)

unfoldable pub too_long : Option String → ℕ → Bool
too_long none cap = false
too_long (some s) cap = ltb cap (Text.length (strip s))

unfoldable pub is_blank : Option String → Bool
is_blank none = true
is_blank (some s) = is_empty (strip s)

unfoldable pub same_user : Payload → Payload → Bool
same_user loser winner =
    text_or_empty (field "user_id" loser) == text_or_empty (field "user_id" winner)

abbrev pub refuse : ℕ → String → Option Refusal
refuse status code = some (refusal status code)

-- The tests on the request alone.
unfoldable pub request_refusal :
    String → String → String → Option String → Option String → Option Refusal
request_refusal loser_id winner_id scope detail reason =
    if not (mem scope ("full" ∷ "partial" ∷ []))
    then refuse 400 "bad-scope"
    else if not (is_memory_id loser_id) || not (is_memory_id winner_id)
    then refuse 400 "bad-id"
    else if norm_id loser_id == norm_id winner_id
    then refuse 400 "self"
    else if (scope == "partial") && is_blank detail
    then refuse 400 "detail-required"
    else if too_long detail detail_max_chars
    then refuse 400 "detail-too-long"
    else if too_long reason reason_max_chars
    then refuse 400 "reason-too-long"
    else none

-- The tests on the tier of the loser and on what has left retrieval.
unfoldable pub state_refusal : Payload → Payload → Option Refusal
state_refusal loser winner =
    if is_null (tier loser) || is_text (tier loser) "canonical"
    then refuse 403 "loser-canonical"
    else if in_texts (tier loser) protected_tiers
    then refuse 403 ("loser-" concat value_text (tier loser))
    else if retired loser
    then refuse 409 "loser-retired"
    else if retired winner
    then refuse 409 "winner-retired"
    else if truthy (field "superseded_by" winner)
    then refuse 409 "winner-superseded"
    else none

-- The tests on who may see the two records.
unfoldable pub scope_refusal : Payload → Payload → List String → Option Refusal
scope_refusal loser winner shared_brands =
    let lb = brand loser shared_brands in
    let wb = brand winner shared_brands in
    if not (same_user loser winner)
    then refuse 403 "cross-tenant"
    else if not (is_empty lb) && not (is_empty wb) && not (lb == wb)
    then refuse 403 "cross-brand"
    else if not (is_empty wb) && is_empty lb
    then refuse 403 "cross-brand"
    else none

-- The tests on a supersession that is already recorded.
unfoldable pub existing_refusal : String → Payload → String → Option Refusal
existing_refusal winner_id loser scope =
    let existing = field "superseded_by" loser in
    if truthy existing && not (norm_id (value_text existing) == norm_id winner_id)
    then refuse 409 "already-superseded"
    else if (scope == "partial") && truthy existing
    then refuse 409 "already-superseded"
    else none

-- The first stage that refuses decides.
unfoldable pub record_refusal :
    String → Option Payload → Option Payload → String → List String → Option Refusal
record_refusal winner_id none winner scope shared_brands = refuse 404 "loser-not-found"
record_refusal winner_id (some loser) none scope shared_brands = refuse 404 "winner-not-found"
record_refusal winner_id (some loser) (some winner) scope shared_brands =
    or_else (state_refusal loser winner)
      (or_else (scope_refusal loser winner shared_brands) (existing_refusal winner_id loser scope))

unfoldable pub precheck :
    String
    → String
    → Option Payload
    → Option Payload
    → String
    → Option String
    → List String
    → Option String
    → Option Refusal
precheck loser_id winner_id loser winner scope detail shared_brands reason =
    or_else (request_refusal loser_id winner_id scope detail reason)
      (record_refusal winner_id loser winner scope shared_brands)

unfoldable pub stripped : Option String → String
stripped none = ""
stripped (some s) = strip s

-- The same partial entry: the same winner and the same claim.
unfoldable pub same_entry : String → String → Dict Scalar → Bool
same_entry winner_id detail e =
    (norm_id (scalar_or_empty (entry_field "winner_id" e)) == norm_id winner_id)
    && (strip (scalar_or_empty (entry_field "detail" e)) == detail)

-- A repeated call changes nothing.
unfoldable pub is_noop : Payload → String → String → Option String → Bool
is_noop loser winner_id scope detail =
    if scope == "full"
    then norm_id (text_or_empty (field "superseded_by" loser)) == norm_id winner_id
    else any (same_entry winner_id (stripped detail)) (partials loser)

unfoldable pub full_payload : String → String → Payload
full_payload winner_id now_iso =
    ("superseded_by", text (norm_id winner_id))
    ∷ ("superseded_at", text now_iso)
    ∷ ("superseded_via", text endpoint_actor)
    ∷ []

unfoldable pub new_entry : String → String → String → Dict Scalar
new_entry winner_id detail now_iso =
    ("winner_id", str (norm_id winner_id))
    ∷ ("detail", str (strip detail))
    ∷ ("at", str now_iso)
    ∷ []

-- The last `PARTIAL_MAX_ENTRIES - 1` entries and the new one.
unfoldable pub appended_entries : List (Dict Scalar) → Dict Scalar → List (Dict Scalar)
appended_entries old e = drop (length old - (partial_max_entries - 1)) old ++ e ∷ []

unfoldable pub partial_payload : Payload → String → String → String → Payload
partial_payload loser winner_id detail now_iso =
    (
      "partially_superseded_by",
      items
          (List.map entry (appended_entries (partials loser) (new_entry winner_id detail now_iso))),
    )
    ∷ []

-- `none` is the `ValueError` on an unknown scope.
unfoldable pub clear_keys : String → Option (List String)
clear_keys scope =
    if scope == "full"
    then some full_keys
    else if scope == "partial"
    then some partial_keys
    else if scope == "all"
    then some (full_keys ++ partial_keys)
    else none

unfoldable pub clear_precheck : String → Option Payload → String → Option String → Option Refusal
clear_precheck loser_id loser scope reason =
    if not (mem scope ("full" ∷ "partial" ∷ "all" ∷ []))
    then refuse 400 "bad-scope"
    else if not (is_memory_id loser_id)
    then refuse 400 "bad-id"
    else if too_long reason reason_max_chars
    then refuse 400 "reason-too-long"
    else elim loser [
      | none ↦ refuse 404 "loser-not-found"
      | some l ↦
          if is_protected (tier l)
          then refuse 403
              ("loser-" concat (if truthy (tier l) then value_text (tier l) else "canonical"))
          else none
    ]

-- `v not in (None, "", [])`
unfoldable pub is_set : Value → Bool
is_set (items []) = false
is_set (items (x ∷ xs)) = true
is_set v = not (is_null v) && not (is_text v "")

unfoldable pub has_supersession : Payload → List String → Bool
has_supersession loser keys = any (λ k. is_set (field k loser)) keys

-- A cascade delete keeps a protected record and one that it cannot read.
unfoldable pub cascade_protected : Option Payload → Bool
cascade_protected none = true
cascade_protected (some p) = is_protected (tier p)

unfoldable pub promotion_refusal : Option Payload → String → Option Refusal
promotion_refusal none target_tier = none
promotion_refusal (some p) target_tier =
    if mem target_tier protected_tiers && truthy (field "superseded_by" p)
    then refuse 409 "superseded-record"
    else none
