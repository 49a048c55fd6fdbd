-- ===== src/Supersession/Protect.antt =====
-- What the supersession door never changes: a canonical record, an insight and a record with no
-- tier.
use agentic_memory_stack_for.Prelude.{
  String, ◌≡◌, ◌≢◌, or_else-ne-none, refl, inl, inr, Bool, true, false, Option, none, some, List,
  arith, Bool-cases,
}
use agentic_memory_stack_for.Payload.{Payload}
use agentic_memory_stack_for.Supersession.Ids.{norm_id, is_memory_id}
use agentic_memory_stack_for.Supersession.Rules.{
  Refusal, tier, is_protected, record_refusal, precheck, clear_precheck,
}
use agentic_memory_stack_for.Supersession.Matrix.{precheck-none_iff}
use agentic_memory_stack_for.Supersession.Store.{PayloadStore}
use agentic_memory_stack_for.Supersession.Transaction.{
  Line, World, read_id, run_supersede, clear, run_unsupersede,
}
use agentic_memory_stack_for.Supersession.Audit.{run_supersede-IsAudited}

-- The matrix admits no protected loser, whatever was read of the winner.
precheck-protected :
    (li wi : String) (loser : Payload) (winner : Option Payload) (s : String) (d : Option String)
    (shared : List String) (r : Option String)
    → precheck li wi (some loser) winner s d shared r ≡ none
    → is_protected (tier loser) ≡ false
unfolding precheck record_refusal
precheck-protected li wi loser (some winner) s d shared r h =
    ((precheck-none_iff li wi loser winner s d shared r).0 h).live.open_tier
precheck-protected li wi loser none s d shared r h = absurd (or_else-ne-none _ _ h)

clear_precheck-protected :
    (mid scope : String) (loser : Payload) (reason : Option String)
    → is_protected (tier loser) ≡ true
    → clear_precheck mid (some loser) scope reason ≢ none
unfolding clear_precheck
clear_precheck-protected mid scope loser reason g = ground arith

module _ (b : PayloadStore) (accepts : Line → Bool) (mid winner_id scope : String)
    (detail reason source : Option String) (shared_brands : List String) (now_iso : String)
    (w : World b accepts) (loser : Payload)
    (there : b.read (norm_id mid) w.store ≡ some (some loser))
    (guarded : is_protected (tier loser) ≡ true) where
  read_id-some :
      (l : Payload)
      → read_id b accepts mid w ≡ some (some l)
      → b.read (norm_id mid) w.store ≡ some (some l)
  unfolding read_id
  read_id-some l h = ground arith

  clear-refused :
      (o : Option Refusal) (keys : Option (List String))
      → o ≢ none
      → (clear b accepts mid scope reason now_iso o (some loser) keys w).1 ≡ w
  unfolding clear
  clear-refused none keys h = absurd (h refl)
  clear-refused (some r) keys h = refl

  run_supersede-protected :
      (run_supersede b accepts mid winner_id scope detail reason source shared_brands now_iso w).1
      ≡ w
  run_supersede-protected =
      elim (run_supersede-IsAudited b accepts mid winner_id scope detail reason source shared_brands
        now_iso w) [
          | inl same ↦ same
          | inr (l, winner, a) ↦
              let open_tier =
                precheck-protected mid winner_id l winner scope detail shared_brands reason
                  a.passed in
              let same_record = read_id-some l a.loser_read in cc
        ]

  run_unsupersede-protected : (run_unsupersede b accepts mid scope reason now_iso w).1 ≡ w
  unfolding run_unsupersede
  run_unsupersede-protected = elim (Bool-cases (is_memory_id mid)) [
    | inr bad ↦ rw bad refl
    | inl good ↦
        rw (good, there)
          (clear-refused _ _ (clear_precheck-protected mid scope loser reason guarded))
  ]

  -- When the store holds a protected record under the id, neither a supersession nor a clear of it
  -- changes the store or the ledger, whatever else the request says.
  pub door-protected :
      ((run_supersede b accepts mid winner_id scope detail reason source shared_brands now_iso w).1
        ≡ w)
      × ((run_unsupersede b accepts mid scope reason now_iso w).1 ≡ w)
  door-protected = (run_supersede-protected, run_unsupersede-protected)
