-- ===== src/Security/Tests.antt =====
-- The security theorems at work on concrete requests. The signature here is the key before the message.
use Prim.Native.String.{◌++◌}
use agentic_memory_stack_for.Prelude.{
  String, ◌≡◌, ◌≢◌, ◌⊎◌, inl, inr, ◌↔◌, refl, arith, true, false, none, some, List, [], ◌∷◌, ◌==◌,
  if◌then◌else◌, All,
}
use agentic_memory_stack_for.Prelude.Text.{space_code, is_space, lstrip, rstrip, strip, mem}
use agentic_memory_stack_for.Prelude.Dict.{get}
use agentic_memory_stack_for.Payload.{Payload, text, field, is_text}
use agentic_memory_stack_for.Security.Labels.{
  ok, retrieval_hide_keys, metadata_forbidden_keys, trusted_patch_keys, effective_label,
  allowed_keys, authorize_metadata_patch, normalize_label,
}
use agentic_memory_stack_for.Security.Patch.{OwnKeys, authorize_metadata_patch-ok_iff}
use agentic_memory_stack_for.Security.Replay.{
  unreadable, aware, Line, entry, given, scan, read_entry, keep_entry, record_nonce,
  check_and_record_nonce,
}
use agentic_memory_stack_for.Security.Token.{
  Server, Headers, found, message, validate_hmac_user_direct, check_present, check_skew,
  check_signature, settle_nonce, is_ascii, assert_writable, on_tier, gate_tier, tier_for_caller,
  fetch_current_tier,
}
use agentic_memory_stack_for.Security.Valid.{
  Signed, FirstUse, validate_hmac_user_direct-Signed, validate_hmac_user_direct-ok_iff,
}
use agentic_memory_stack_for.Security.Once.{Run, done, accept, validate_hmac_user_direct-once}
use agentic_memory_stack_for.Security.Gate.{ByLabel, ByToken, assert_writable-protected}
use agentic_memory_stack_for.Security.Ambiguity.{bar, with_nonce, Signed-again}

abbrev server : Server
server = record {
  key = some "k";
  sign = λ key message. key ++ message;
  instant = λ s.
      if s == "t1" then aware 1000000000 else if s == "t2" then aware 1100000000 else unreadable;
  large = λ lines. false;
}

-- The headers of an honest request.
abbrev signed : String → String → String → String → String → Headers
signed ts nonce action memory_id reason = record {
  token = some ("k" ++ message ts nonce action memory_id reason);
  ts = some ts;
  nonce = some nonce;
}

abbrev first : Headers
first = signed "t1" "n1" "delete" "m" "stale"

abbrev second : Headers
second = signed "t2" "n2" "put" "m" "typo"

abbrev one : List Line
one = entry (some "n1") (some "t1") ∷ []

abbrev two : List Line
two = entry (some "n1") (some "t1") ∷ entry (some "n2") (some "t2") ∷ []

first_accepted : validate_hmac_user_direct server 1000000005 "m" "delete" "stale" first [] ≡ ok one
unfolding validate_hmac_user_direct check_present check_skew check_signature settle_nonce
    check_and_record_nonce record_nonce scan read_entry keep_entry strip lstrip rstrip is_space
    space_code mem
first_accepted = refl

second_accepted : validate_hmac_user_direct server 1100000005 "m" "put" "typo" second one ≡ ok two
unfolding validate_hmac_user_direct check_present check_skew check_signature settle_nonce
    check_and_record_nonce record_nonce scan read_entry keep_entry strip lstrip rstrip is_space
    space_code mem
second_accepted = refl

abbrev between : Run server 1250000000 one two
between = accept 1100000005 "m" "put" "typo" second (omega arith) second_accepted done

-- The first token is sent again, after another one was accepted.
validate_hmac_user_direct-once_example :
    validate_hmac_user_direct server 1250000000 "m" "delete" "stale" first two ≢ ok two
validate_hmac_user_direct-once_example =
    validate_hmac_user_direct-once server [] one two two 1000000005 1250000000 "m" "delete" "stale"
      first "m" "delete" "stale" first first_accepted between refl (inl refl)

abbrev record_of : Payload
record_of = ("tier", text "canonical") ∷ ("data", text "fact") ∷ []

gate_passed :
    assert_writable server 1000000005 (found record_of) none "m" "delete" "stale" first false []
    ≡ ok (text "canonical", one)
unfolding assert_writable on_tier gate_tier tier_for_caller fetch_current_tier field get
    normalize_label trusted_patch_keys validate_hmac_user_direct check_present check_skew
    check_signature settle_nonce check_and_record_nonce record_nonce scan read_entry keep_entry
    strip lstrip rstrip is_space space_code mem
gate_passed = refl

is_canonical : field "tier" record_of ≡ text "canonical"
unfolding field get
is_canonical = refl

assert_writable-protected_example :
    ByLabel server 1000000005 none "m" "delete" "stale" first false record_of
    ⊎ ByToken server 1000000005 none "m" "delete" "stale" first false [] one
assert_writable-protected_example =
    assert_writable-protected server 1000000005 none "m" "delete" "stale" first false record_of []
      one (text "canonical") (inr (inl is_canonical)) gate_passed

authorize_metadata_patch-ok_iff_example :
    (authorize_metadata_patch (text "evidence") (some "decay-scan") ("expires_at" ∷ []) true
      ≡ ok tt)
    ↔ ((is_text (text "evidence") "canonical" ≡ true
          → All (λ k. mem k retrieval_hide_keys ≡ false) ("expires_at" ∷ []))
        × All
            (λ k.
              mem k metadata_forbidden_keys ≡ true
              → mem k (allowed_keys (effective_label (some "decay-scan") true)) ≡ true)
            ("expires_at" ∷ [])
        × OwnKeys
            (trusted_patch_keys (effective_label (some "decay-scan") true))
            ("expires_at" ∷ []))
authorize_metadata_patch-ok_iff_example =
    authorize_metadata_patch-ok_iff (text "evidence") (some "decay-scan") ("expires_at" ∷ []) true

-- The operator signs a put whose reason reads like a deletion of another record.
abbrev crafted : Headers
crafted = signed "t1" "n1" "put" "m" (bar "delete" (bar "x" "old"))

crafted_accepted :
    validate_hmac_user_direct server 1000000005 "m" "put" (bar "delete" (bar "x" "old")) crafted []
    ≡ ok one
unfolding validate_hmac_user_direct check_present check_skew check_signature settle_nonce
    check_and_record_nonce record_nonce scan read_entry keep_entry strip lstrip rstrip is_space
    space_code mem
crafted_accepted = refl

crafted_signed : Signed server 1000000005 "m" "put" (bar "delete" (bar "x" "old")) crafted
crafted_signed =
    (validate_hmac_user_direct-Signed server 1000000005 "m" "put" (bar "delete" (bar "x" "old"))
      crafted [] one crafted_accepted).0

valid_delete :
    mem "delete" ("put" ∷ "delete" ∷ "patch_metadata" ∷ "merge_goals" ∷ "promote" ∷ "demote" ∷ [])
    ≡ true
unfolding mem
valid_delete = refl

Signed-again_example :
    Signed server 1000000005 "x" "delete" "old" (with_nonce crafted (bar "n1" (bar "put" "m")))
Signed-again_example =
    Signed-again server 1000000005 "put" "m" "delete" "x" "old" crafted valid_delete crafted_signed

validate_hmac_user_direct-ok_iff_example :
    (validate_hmac_user_direct server 1000000005 "m" "delete" "stale" first [] ≡ ok one) ↔ (
      Signed server 1000000005 "m" "delete" "stale" first
      × (is_ascii (strip (given (Headers.token first))) ≡ true)
      × FirstUse server 1000000005 "m" "delete" "stale" first [] one)
validate_hmac_user_direct-ok_iff_example =
    validate_hmac_user_direct-ok_iff server 1000000005 "m" "delete" "stale" first [] one
