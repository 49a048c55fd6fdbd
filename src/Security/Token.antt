-- ===== src/Security/Token.antt =====
-- mem0-server/security_invariants.py: the tier of a record, the user-direct token and the gate of
-- every mutation. The key, the clock and HMAC-SHA256 (its base64 text, `sign key message`) are
-- arguments. What a check returns is the store that it leaves; a refusal leaves the store as it was.
use Prim.Native.Char.{code}
use Prim.Native.String.{◌++◌}
use agentic_memory_stack_for.Prelude.{
  ℕ, ◌+◌, ◌-◌, String, Bool, true, not, ◌&&◌, ◌||◌, Option, List, is_some, ltb, ◌==◌, if◌then◌else◌,
}
use agentic_memory_stack_for.Prelude.Text.{is_empty, strip, mem}
use agentic_memory_stack_for.Payload.{Value, scalar, null, Payload, text, field, is_null, is_text}
use agentic_memory_stack_for.Security.Labels.{
  Checked, ok, http, valid_hmac_actions, insight_allowed_actors, trusted_patch_keys,
  normalize_label,
}
use agentic_memory_stack_for.Security.Replay.{
  Instant, unreadable, naive, aware, Line, canonical_token_max_skew, given, Verdict, fresh,
  replayed, crashed, check_and_record_nonce,
}

-- What the vector store answers to `retrieve`.
pub data Retrieved : Type 0 where
  failed : Retrieved
  missing : Retrieved
  found : Payload → Retrieved

abbrev pub not_found : Value
not_found = text "__NOT_FOUND__"

unfoldable pub fetch_current_tier : Retrieved → Checked Value
fetch_current_tier failed = http 503 "cannot verify tier"
fetch_current_tier missing = ok not_found
fetch_current_tier (found payload) =
    let tier = field "tier" payload in if is_null tier then ok (text "canonical") else ok tier

-- What the server holds while it checks a token.
pub record Server : Type 0 where
  pub key : Option String
  pub sign : String → String → String
  pub instant : String → Instant
  pub large : List Line → Bool

-- The request's headers.
pub record Headers : Type 0 where
  pub token : Option String
  pub ts : Option String
  pub nonce : Option String

-- `<ts>|<nonce>|<action>|<memory_id>|<reason>`
abbrev pub message : String → String → String → String → String → String
message ts nonce action memory_id reason =
    ts ++ "|" ++ nonce ++ "|" ++ action ++ "|" ++ memory_id ++ "|" ++ reason

abbrev pub is_ascii : String → Bool
is_ascii String.[] = true
is_ascii (String.◌∷◌ c s) = ltb (code c) 128 && is_ascii s

-- `abs(now - ts)`
abbrev pub skew : ℕ → ℕ → ℕ
skew now t = (now - t) + (t - now)

unfoldable pub settle_nonce : Verdict → Checked (List Line)
settle_nonce (fresh store) = ok store
settle_nonce replayed = http 403 "replay detected"
settle_nonce crashed = http 500 "TypeError"

-- `hmac.compare_digest` of two texts raises TypeError on one that is not ASCII.
unfoldable pub check_signature : String → String → Checked (List Line) → Checked (List Line)
check_signature expected presented next =
    if not (is_ascii presented)
    then http 500 "TypeError"
    else if not (expected == presented)
    then http 403 "HMAC mismatch"
    else next

unfoldable pub check_skew : ℕ → Instant → Checked (List Line) → Checked (List Line)
check_skew now unreadable next = http 400 "X-User-Direct-Ts not parseable"
check_skew now naive next = http 500 "TypeError"
check_skew now (aware t) next =
    if ltb canonical_token_max_skew (skew now t) then http 403 "timestamp skew" else next

-- The guards that read no clock and no store.
unfoldable pub check_present : String → String → Headers → Checked (List Line) → Checked (List Line)
check_present key action h next =
    if is_empty key
    then http 503 "server has no canonical key"
    else if not (mem action valid_hmac_actions)
    then http 500 "invalid action"
    else if is_empty (given (Headers.token h)) || is_empty (given (Headers.ts h))
    then http 403 "requires a user-direct HMAC token"
    else if is_empty (given (Headers.nonce h))
    then http 403 "X-User-Direct-Nonce required"
    else next

-- The tier that the caller gets, `None` where there is no record.
unfoldable pub tier_for_caller : Value → Value
tier_for_caller tier = if is_null tier || is_text tier "__NOT_FOUND__" then scalar null else tier

abbrev pub with_tier : Value → Checked (List Line) → Checked (Value × List Line)
with_tier tier (http code why) = http code why
with_tier tier (ok store) = ok (tier, store)

module _ (server : Server) (now : ℕ) where
  unfoldable pub validate_hmac_user_direct :
      String → String → String → Headers → List Line → Checked (List Line)
  validate_hmac_user_direct memory_id action reason h store =
      let key = given (Server.key server) in
      let ts = given (Headers.ts h) in
      let nonce = given (Headers.nonce h) in
      check_present key action h (
        check_skew now (Server.instant server ts) (
          check_signature
            (strip (Server.sign server key (message ts nonce action memory_id reason)))
            (strip (given (Headers.token h)))
            (settle_nonce (
              check_and_record_nonce (Server.instant server) (Server.large server) now nonce ts
                store))))

  unfoldable pub validate_insight_actor :
      Option String → String → String → String → Headers → Bool → List Line → Checked (List Line)
  validate_insight_actor actor memory_id action reason h service_verified store =
      if service_verified && mem (normalize_label actor) insight_allowed_actors
      then ok store
      else validate_hmac_user_direct memory_id action reason h store

  -- The gate, once the tier is read. A record that is not there passes: its mutation fails later.
  unfoldable pub gate_tier :
      Value
      → Option String
      → String
      → String
      → String
      → Headers
      → Bool
      → List Line
      → Checked (List Line)
  gate_tier tier actor memory_id action reason h service_verified store =
      if is_null tier || is_text tier "__NOT_FOUND__"
      then ok store
      else if (action == "patch_metadata")
          && service_verified
          && is_some (trusted_patch_keys (normalize_label actor))
      then ok store
      else if is_text tier "canonical"
      then validate_hmac_user_direct memory_id action reason h store
      else if is_text tier "insight"
      then validate_insight_actor actor memory_id action reason h service_verified store
      else ok store

  unfoldable pub on_tier :
      Checked Value
      → Option String
      → String
      → String
      → String
      → Headers
      → Bool
      → List Line
      → Checked (Value × List Line)
  on_tier (http code why) actor memory_id action reason h service_verified store = http code why
  on_tier (ok tier) actor memory_id action reason h service_verified store =
      with_tier (tier_for_caller tier)
        (gate_tier tier actor memory_id action reason h service_verified store)

  unfoldable pub assert_writable :
      Retrieved
      → Option String
      → String
      → String
      → String
      → Headers
      → Bool
      → List Line
      → Checked (Value × List Line)
  assert_writable retrieved actor memory_id action reason h service_verified store =
      if not (mem action valid_hmac_actions)
      then http 500 "invalid action"
      else on_tier (fetch_current_tier retrieved) actor memory_id action reason h service_verified
          store
