-- ===== src/Security/Once.antt =====
-- A user-direct token is accepted at most once, whatever the server checks in between.
use Prim.Native.Nat.{◌+◌}
use agentic_memory_stack_for.Prelude.{ℕ, ◌≤◌, String, ◌≡◌, ◌≢◌, ◌⊎◌, inl, inr, List, arith}
use agentic_memory_stack_for.Security.Labels.{ok}
use agentic_memory_stack_for.Security.Replay.{
  aware, Line, canonical_token_max_skew, replay_gc, given,
}
use agentic_memory_stack_for.Security.Recorded.{
  Recorded, check_and_record_nonce-refuses, check_and_record_nonce-keeps,
  check_and_record_nonce-records,
}
use agentic_memory_stack_for.Security.Token.{Server, Headers, skew, validate_hmac_user_direct}
use agentic_memory_stack_for.Security.Valid.{validate_hmac_user_direct-Signed}

-- The tokens that the server accepts one after the other, none later than `until`. A refusal leaves
-- the store as it was, so it is no step.
pub data Run (server : Server) (until : ℕ) : List Line → List Line → Type 0 where
  done : {s : List Line} → Run server until s s
  accept :
      {s next end : List Line} (now : ℕ) (memory_id action reason : String) (h : Headers)
      → now ≤ until
      → validate_hmac_user_direct server now memory_id action reason h s ≡ ok next
      → Run server until next end
      → Run server until s end

aware-inj : (t u : ℕ) → aware t ≡ aware u → t ≡ u
aware-inj t u e = cc

module _ (server : Server) where
  run-Recorded :
      (until limit : ℕ) (nonce : String) {s end : List Line}
      → until ≤ limit
      → Recorded (Server.instant server) limit nonce s
      → Run server until s end
      → Recorded (Server.instant server) limit nonce end
  run-Recorded until limit nonce b r done = r
  run-Recorded until limit nonce b r
        (accept {s} {next} now memory_id action reason h early e rest) =
      let v = validate_hmac_user_direct-Signed server now memory_id action reason h s next e in
      run-Recorded until limit nonce b
        (check_and_record_nonce-keeps (Server.instant server) limit now (omega (arith, early, b))
          (Server.large server) nonce (given (Headers.nonce h)) (given (Headers.ts h)) s next r v.1)
        rest

  in_time : (t now : ℕ) → skew now t ≤ canonical_token_max_skew → now ≤ t + replay_gc
  in_time t now h = omega arith

  still_kept :
      (t now until : ℕ)
      → skew now t ≤ canonical_token_max_skew
      → until ≤ now + canonical_token_max_skew
      → until ≤ t + replay_gc
  still_kept t now until h b = omega arith

  -- A nonce that a token brought at instant `t` is refused as long as its entry is kept.
  spent :
      {s end next : List Line} (until t : ℕ) (memory_id action reason : String) (h : Headers)
      → until ≤ t + replay_gc
      → Recorded (Server.instant server) (t + replay_gc) (given (Headers.nonce h)) s
      → Run server until s end
      → validate_hmac_user_direct server until memory_id action reason h end ≢ ok next
  spent {s} {end} {next} until t memory_id action reason h b r run e =
      let v = validate_hmac_user_direct-Signed server until memory_id action reason h end next e in
      check_and_record_nonce-refuses (Server.instant server) (t + replay_gc) until b
        (Server.large server) (given (Headers.nonce h)) (given (Headers.ts h)) end next
        (run-Recorded until (t + replay_gc) (given (Headers.nonce h)) b r run) v.1

  before :
      (t u until now : ℕ) {first second : String}
      → skew now t ≤ canonical_token_max_skew
      → skew until u ≤ canonical_token_max_skew
      → Server.instant server first ≡ aware t
      → Server.instant server second ≡ aware u
      → (second ≡ first) ⊎ (until ≤ now + canonical_token_max_skew)
      → until ≤ t + replay_gc
  before t u until now b c i j (inl same) = in_time t until (rw (aware-inj t u (cc)) c)
  before t u until now b c i j (inr soon) = still_kept t now until b soon

  -- After a token was accepted, and whatever tokens no later than `until` were accepted in
  -- between, no token with the same nonce is accepted at `until`, if it has the same timestamp or
  -- if `until` is at most the allowed skew after the first acceptance.
  pub validate_hmac_user_direct-once :
      (s next end last : List Line) (now until : ℕ) (memory_id action reason : String) (h : Headers)
      (again_id again_action again_reason : String) (again : Headers)
      → validate_hmac_user_direct server now memory_id action reason h s ≡ ok next
      → Run server until next end
      → given (Headers.nonce again) ≡ given (Headers.nonce h)
      → (given (Headers.ts again) ≡ given (Headers.ts h)) ⊎ (until ≤ now + canonical_token_max_skew)
      → validate_hmac_user_direct server until again_id again_action again_reason again end
        ≢ ok last
  validate_hmac_user_direct-once s next end last now until memory_id action reason h again_id
        again_action again_reason again e run n which e2 =
      let first = validate_hmac_user_direct-Signed server now memory_id action reason h s next e in
      let second =
        validate_hmac_user_direct-Signed server until again_id again_action again_reason again end
          last e2 in
      let (t, i, b) = first.0.1 in
      let (u, j, c) = second.0.1 in
      let r =
        check_and_record_nonce-records (Server.instant server) (Server.large server) now
          (t + replay_gc) t (given (Headers.nonce h)) (given (Headers.ts h)) s next i (omega arith)
          first.1 in
      let bound = before t u until now b c i j which in
      spent until t again_id again_action again_reason again bound (rw n r) run e2
