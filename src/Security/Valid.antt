-- ===== src/Security/Valid.antt =====
-- Which tokens the server accepts.
use Prim.Native.String.{◌++◌}
use agentic_memory_stack_for.Prelude.{
  eq_refl, ℕ, ◌≤◌, String, ◌≡◌, refl, sym, ◌↔◌, Bool, true, false, not, ◌||◌, List, arith, eq_iff,
  ltb, if◌then◌else◌,
}
use agentic_memory_stack_for.Prelude.Text.{is_empty, strip, mem}
use agentic_memory_stack_for.Security.Labels.{Checked, ok, http, valid_hmac_actions}
use agentic_memory_stack_for.Security.Replay.{
  Instant, unreadable, naive, aware, Line, canonical_token_max_skew, given, Verdict, fresh,
  replayed, crashed, check_and_record_nonce,
}
use agentic_memory_stack_for.Security.Scanned.{IsFirstUse, check_and_record_nonce-fresh_iff}
use agentic_memory_stack_for.Security.Token.{
  is_ascii, Server, Headers, skew, settle_nonce, check_signature, check_skew, check_present,
  validate_hmac_user_direct,
}

guard_iff :
    (b : Bool) (code : ℕ) (why : String) (next : Checked (List Line)) (s : List Line)
    → ((if b then http code why else next) ≡ ok s) ↔ ((b ≡ false) × (next ≡ ok s))
guard_iff true code why next s = ((λ h. cc), (λ h. cc))
guard_iff false code why next s = ((λ h. (refl, h)), (λ h. h.1))

not-false : (b : Bool) → not b ≡ false → b ≡ true
not-false true h = refl
not-false false h = sym h

or-false-left : (a b : Bool) → (a || b) ≡ false → a ≡ false
or-false-left a b h = ground arith

or-false-right : (a b : Bool) → (a || b) ≡ false → b ≡ false
or-false-right a b h = ground arith

-- Every header is filled, the server has its key and the action is one of the signed actions.
abbrev Present : String → String → Headers → Type 0
Present key action h =
    (is_empty key ≡ false)
    × (mem action valid_hmac_actions ≡ true)
    × (is_empty (given (Headers.token h)) ≡ false)
    × (is_empty (given (Headers.ts h)) ≡ false)
    × (is_empty (given (Headers.nonce h)) ≡ false)

check_present-ok :
    (key action : String) (h : Headers) (next : Checked (List Line)) (s : List Line)
    → check_present key action h next ≡ ok s
    → Present key action h × (next ≡ ok s)
unfolding check_present
check_present-ok key action h next s e =
    let a = (guard_iff _ _ _ _ s).0 e in
    let b = (guard_iff _ _ _ _ s).0 a.1 in
    let c = (guard_iff _ _ _ _ s).0 b.1 in
    let d = (guard_iff _ _ _ _ s).0 c.1 in
    ((a.0, not-false _ b.0, or-false-left _ _ c.0, or-false-right _ _ c.0, d.0), d.1)

leb_of : (n : ℕ) → ltb canonical_token_max_skew n ≡ false → n ≤ canonical_token_max_skew
leb_of n h = ground arith

check_skew-ok :
    (now : ℕ) (i : Instant) (next : Checked (List Line)) (s : List Line)
    → check_skew now i next ≡ ok s
    → (t : ℕ) × (i ≡ aware t) × (skew now t ≤ canonical_token_max_skew) × (next ≡ ok s)
unfolding check_skew
check_skew-ok now unreadable next s e = absurd cc
check_skew-ok now naive next s e = absurd cc
check_skew-ok now (aware t) next s e =
    let g =
      (guard_iff (ltb canonical_token_max_skew (skew now t)) 403 "timestamp skew" next s).0 e in
    (t, refl, leb_of (skew now t) g.0, g.1)

check_signature-ok :
    (expected presented : String) (next : Checked (List Line)) (s : List Line)
    → check_signature expected presented next ≡ ok s
    → (is_ascii presented ≡ true) × (expected ≡ presented) × (next ≡ ok s)
unfolding check_signature
check_signature-ok expected presented next s e = ground (arith, eq_iff expected presented)

within_skew : (n : ℕ) → n ≤ canonical_token_max_skew → ltb canonical_token_max_skew n ≡ false
within_skew n h = ground arith

settle_nonce-ok : (v : Verdict) (s : List Line) → settle_nonce v ≡ ok s → v ≡ fresh s
unfolding settle_nonce
settle_nonce-ok (fresh x) s e = cc
settle_nonce-ok replayed s e = absurd cc
settle_nonce-ok crashed s e = absurd cc

module _ (server : Server) (now : ℕ) (memory_id action reason : String) (h : Headers) where
  abbrev signed_message : String
  signed_message =
      given (Headers.ts h)
      ++ "|"
      ++ given (Headers.nonce h)
      ++ "|"
      ++ action
      ++ "|"
      ++ memory_id
      ++ "|"
      ++ reason

  -- The token signs this very request, now, under the server's key.
  abbrev pub Signed : Type 0
  Signed =
      Present (given (Server.key server)) action h
      × ((t : ℕ) × (Server.instant server (given (Headers.ts h)) ≡ aware t)
          × (skew now t ≤ canonical_token_max_skew))
      × (strip (Server.sign server (given (Server.key server)) signed_message)
          ≡ strip (given (Headers.token h)))

  -- The nonce is new, and the store that records it is `next`.
  abbrev pub NewNonce : List Line → List Line → Type 0
  NewNonce store next =
      check_and_record_nonce (Server.instant server) (Server.large server) now
        (given (Headers.nonce h)) (given (Headers.ts h)) store
      ≡ fresh next

  accepted :
      (store next : List Line)
      → validate_hmac_user_direct server now memory_id action reason h store ≡ ok next
      → Signed × (is_ascii (strip (given (Headers.token h))) ≡ true) × NewNonce store next
  unfolding validate_hmac_user_direct
  accepted store next e =
      let a = check_present-ok (given (Server.key server)) action h _ next e in
      let (t, i, b, c) = check_skew-ok now _ _ next a.1 in
      let d = check_signature-ok _ _ _ next c in
      ((a.0, (t, i, b), d.1), d.0, settle_nonce-ok _ next d.2)

  accepts :
      (store next : List Line)
      → Signed × (is_ascii (strip (given (Headers.token h))) ≡ true) × NewNonce store next
      → validate_hmac_user_direct server now memory_id action reason h store ≡ ok next
  unfolding validate_hmac_user_direct check_present check_skew check_signature settle_nonce
  accepts store next v =
      let ((p, (t, i, b), e), a, n) = v in
      rw
        (
          p.0,
          p.1,
          p.2,
          p.3,
          p.4,
          i,
          within_skew (skew now t) b,
          a,
          e,
          eq_refl (strip (given (Headers.token h))),
          n,
        )
        refl

  -- The nonce is spent for the first time, as far as the live lines of the store tell.
  abbrev pub FirstUse : List Line → List Line → Type 0
  FirstUse store next =
      IsFirstUse (Server.instant server) (Server.large server) now (given (Headers.nonce h))
        (given (Headers.ts h)) store next

  FirstUse-iff : (store next : List Line) → NewNonce store next ↔ FirstUse store next
  FirstUse-iff store next =
      check_and_record_nonce-fresh_iff (Server.instant server) (Server.large server) now
        (given (Headers.nonce h)) (given (Headers.ts h)) store next

  -- A token is accepted exactly when the headers are filled, the key is there, the action is one
  -- of the signed ones, the timestamp is an instant within the allowed skew, the token is an ASCII
  -- text that is the signature of the text with the timestamp, the nonce, the action, the memory
  -- id and the reason, no line of the store has a time without a zone, and no live line of it
  -- carries the nonce; the next store is then this one, or its live lines when the file is large,
  -- with the nonce behind.
  pub validate_hmac_user_direct-ok_iff :
      (store next : List Line)
      → (validate_hmac_user_direct server now memory_id action reason h store ≡ ok next)
        ↔ (Signed × (is_ascii (strip (given (Headers.token h))) ≡ true) × FirstUse store next)
  validate_hmac_user_direct-ok_iff store next = (
    (λ e. let v = accepted store next e in (v.0, v.1, (FirstUse-iff store next).0 v.2)),
    (λ v. accepts store next (v.0, v.1, (FirstUse-iff store next).1 v.2)),
  )

  pub validate_hmac_user_direct-Signed :
      (store next : List Line)
      → validate_hmac_user_direct server now memory_id action reason h store ≡ ok next
      → Signed × NewNonce store next
  validate_hmac_user_direct-Signed store next e = let v = accepted store next e in (v.0, v.2)
