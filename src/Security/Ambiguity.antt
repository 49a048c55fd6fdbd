-- ===== src/Security/Ambiguity.antt =====
-- The message that a token signs does not tell where its fields end.
use Prim.Native.String.{◌++◌}
use text.Mathlib.TextLemmas.{append_assoc, cons-append}
use agentic_memory_stack_for.Prelude.{ℕ, String, ◌≡◌, ap, ◌∙◌, true, false, some}
use agentic_memory_stack_for.Prelude.Text.{is_empty, strip, mem}
use agentic_memory_stack_for.Security.Labels.{valid_hmac_actions}
use agentic_memory_stack_for.Security.Replay.{given}
use agentic_memory_stack_for.Security.Token.{Server, Headers, message}
use agentic_memory_stack_for.Security.Valid.{Signed}

-- Two texts around a bar.
abbrev pub bar : String → String → String
bar s t = s ++ "|" ++ t

bar_assoc : (s t u : String) → bar (bar s t) u ≡ bar s (bar t u)
bar_assoc s t u =
    append_assoc s ("|" ++ t) ("|" ++ u) ∙ ap (λ v. s ++ v) (append_assoc "|" t ("|" ++ u))

-- A nonce that swallows the action and the id of the request, whose reason begins with another one.
message-shift :
    (ts nonce action memory_id other other_id reason : String)
    → message ts (bar nonce (bar action memory_id)) other other_id reason
      ≡ message ts nonce action memory_id (bar other (bar other_id reason))
message-shift ts nonce action memory_id other other_id reason = ap (bar ts) (
    bar_assoc nonce (bar action memory_id) (bar other (bar other_id reason))
    ∙ ap (bar nonce) (bar_assoc action memory_id (bar other (bar other_id reason))))

is_empty-bar : (s t : String) → is_empty s ≡ false → is_empty (bar s t) ≡ false
is_empty-bar String.[] t h = absurd cc
is_empty-bar (String.◌∷◌ c s) t h = ap is_empty (cons-append c s ("|" ++ t))

abbrev pub with_nonce : Headers → String → Headers
with_nonce h nonce = record { token = Headers.token h; ts = Headers.ts h; nonce = some nonce }

-- When a token signs a request whose reason reads as another action, another id and another reason
-- between bars, the same token under a longer nonce signs that other request too, if its action is
-- one of the signed ones.
pub Signed-again :
    (server : Server) (now : ℕ) (action memory_id other other_id reason : String) (h : Headers)
    → mem other valid_hmac_actions ≡ true
    → Signed server now memory_id action (bar other (bar other_id reason)) h
    → Signed server now other_id other reason
        (with_nonce h (bar (given (Headers.nonce h)) (bar action memory_id)))
Signed-again server now action memory_id other other_id reason h valid signed =
    let (p, t, e) = signed in
    (
      (p.0, valid, p.2, p.3, is_empty-bar (given (Headers.nonce h)) (bar action memory_id) p.4),
      t,
      ap (λ m. strip (Server.sign server (given (Server.key server)) m))
            (message-shift (given (Headers.ts h)) (given (Headers.nonce h)) action memory_id other
              other_id reason)
          ∙ e,
    )
