-- ===== src/Supersession/Matrix.antt =====
-- What the refusal matrix of mem0-server/supersession.py lets through, stated without its order.
use agentic_memory_stack_for.Prelude.{
  String, ◌≡◌, ◌≢◌, refl, ◌⊎◌, inl, inr, ◌↔◌, true, false, not, ◌&&◌, Option, none, some, List,
  arith, ◌==◌, eq_iff, or_else,
}
use agentic_memory_stack_for.Prelude.Text.{is_empty, mem}
use agentic_memory_stack_for.Payload.{Payload, truthy, field, value_text}
use agentic_memory_stack_for.Supersession.Ids.{is_memory_id, norm_id}
use agentic_memory_stack_for.Supersession.Rules.{
  detail_max_chars, reason_max_chars, tier, is_protected, retired, brand, too_long, is_blank,
  same_user, request_refusal, state_refusal, scope_refusal, existing_refusal, record_refusal,
  precheck,
}

-- A well-formed request.
pub record IsWellFormed (loser_id winner_id scope : String) (detail reason : Option String)
    : Type 0 where
  pub scope_known : (scope ≡ "full") ⊎ (scope ≡ "partial")
  pub loser_is_id : is_memory_id loser_id ≡ true
  pub winner_is_id : is_memory_id winner_id ≡ true
  pub distinct : norm_id loser_id ≢ norm_id winner_id
  pub claim_named : scope ≡ "partial" → is_blank detail ≡ false
  pub detail_fits : too_long detail detail_max_chars ≡ false
  pub reason_fits : too_long reason reason_max_chars ≡ false

-- Both records are live, the loser is not protected and the winner is not itself superseded.
pub record IsLive (loser winner : Payload) : Type 0 where
  pub open_tier : is_protected (tier loser) ≡ false
  pub loser_live : retired loser ≡ false
  pub winner_live : retired winner ≡ false
  pub winner_current : truthy (field "superseded_by" winner) ≡ false

-- The winner is the same user's, and visible wherever the loser is: it carries no brand, or the
-- loser's.
pub record IsVisible (loser winner : Payload) (shared_brands : List String) : Type 0 where
  pub same_tenant : same_user loser winner ≡ true
  pub reaches :
      (brand winner shared_brands ≡ "") ⊎ (brand loser shared_brands ≡ brand winner shared_brands)

-- The loser has no other winner, and for a partial note no winner at all.
pub record IsUnclaimed (winner_id : String) (loser : Payload) (scope : String) : Type 0 where
  pub no_other :
      (truthy (field "superseded_by" loser) ≡ false)
      ⊎ (norm_id (value_text (field "superseded_by" loser)) ≡ norm_id winner_id)
  pub still_shown : scope ≡ "partial" → truthy (field "superseded_by" loser) ≡ false

request_refusal-none :
    (loser_id winner_id scope : String) (detail reason : Option String)
    → (request_refusal loser_id winner_id scope detail reason ≡ none)
      ↔ IsWellFormed loser_id winner_id scope detail reason
unfolding request_refusal mem
request_refusal-none l w s d r = (
  (λ h. ground (arith, eq_iff s "full", eq_iff s "partial", eq_iff (norm_id l) (norm_id w))),
  (λ h. ground (arith, eq_iff s "full", eq_iff s "partial", eq_iff (norm_id l) (norm_id w))),
)

state_refusal-none :
    (loser winner : Payload) → (state_refusal loser winner ≡ none) ↔ IsLive loser winner
unfolding state_refusal is_protected mem
state_refusal-none l w = ((λ h. ground arith), (λ h. ground arith))

reaches_tests :
    (lb wb : String)
    → (wb ≡ "") ⊎ (lb ≡ wb)
    → ((not (is_empty lb) && not (is_empty wb) && not (lb == wb)) ≡ false)
      × ((not (is_empty wb) && is_empty lb) ≡ false)
reaches_tests lb wb (inl e) = rw e (ground arith, refl)
reaches_tests lb wb (inr e) = rw e (ground (arith, eq_iff wb wb), ground arith)

scope_refusal-none :
    (loser winner : Payload) (shared : List String)
    → (scope_refusal loser winner shared ≡ none) ↔ IsVisible loser winner shared
unfolding scope_refusal
scope_refusal-none l w shared = (
  (λ h. ground (arith, eq_iff (brand l shared) (brand w shared))),
  (λ h. ground (arith, reaches_tests (brand l shared) (brand w shared) h.reaches)),
)

existing_refusal-none :
    (winner_id : String) (loser : Payload) (scope : String)
    → (existing_refusal winner_id loser scope ≡ none) ↔ IsUnclaimed winner_id loser scope
unfolding existing_refusal
existing_refusal-none w l s = (
  (λ h. ground (
    arith,
    eq_iff s "partial",
    eq_iff (norm_id (value_text (field "superseded_by" l))) (norm_id w),
  )),
  (λ h. ground (
    arith,
    eq_iff s "partial",
    eq_iff (norm_id (value_text (field "superseded_by" l))) (norm_id w),
  )),
)

or_else-none {ℓ} : {A : Type ℓ} (o p : Option A) → (or_else o p ≡ none) ↔ ((o ≡ none) × (p ≡ none))
or_else-none none p = ((λ h. (refl, h)), (λ h. h.1))
or_else-none (some a) p = ((λ h. cc), (λ h. cc))

pub record IsAdmissible (loser_id winner_id : String) (loser winner : Payload) (scope : String)
    (detail : Option String) (shared_brands : List String) (reason : Option String) : Type 0 where
  pub request : IsWellFormed loser_id winner_id scope detail reason
  pub live : IsLive loser winner
  pub visible : IsVisible loser winner shared_brands
  pub unclaimed : IsUnclaimed winner_id loser scope

-- The refusal matrix lets a supersession of two records through exactly when the request is well
-- formed, both records are live with an unprotected loser and a current winner, the winner is
-- visible wherever the loser is, and the loser has no other winner.
pub precheck-none_iff :
    (loser_id winner_id : String) (loser winner : Payload) (scope : String) (detail : Option String)
    (shared_brands : List String) (reason : Option String)
    → (precheck loser_id winner_id (some loser) (some winner) scope detail shared_brands reason
        ≡ none)
      ↔ IsAdmissible loser_id winner_id loser winner scope detail shared_brands reason
unfolding precheck record_refusal
precheck-none_iff li wi l w s d shared r =
    let first = or_else-none (request_refusal li wi s d r) _ in
    let second = or_else-none (state_refusal l w) _ in
    let third = or_else-none (scope_refusal l w shared) (existing_refusal wi l s) in
    (
      (λ h.
          let passed = first.0 h in
          let alive = second.0 passed.1 in
          let scoped = third.0 alive.1 in
          record {
            request = (request_refusal-none li wi s d r).0 passed.0;
            live = (state_refusal-none l w).0 alive.0;
            visible = (scope_refusal-none l w shared).0 scoped.0;
            unclaimed = (existing_refusal-none wi l s).0 scoped.1;
          }),
      (λ a. first.1 (
        (request_refusal-none li wi s d r).1 a.request,
        second.1 (
          (state_refusal-none l w).1 a.live,
          third.1 (
            (scope_refusal-none l w shared).1 a.visible,
            (existing_refusal-none wi l s).1 a.unclaimed,
          ),
        ),
      )),
    )
