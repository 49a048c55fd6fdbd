-- ===== src/Episodic/Statements.antt =====
-- The statements that open, end and checkpoint a session keep the ledger.
use mathlib.Core.Bool.{false≢true}
use agentic_memory_stack_for.Prelude.{
  ℕ, suc, ◌≤◌, String, ◌≡◌, refl, sym, ◌∙◌, inl, inr, arith, true, false, Option, none, some, [],
  ◌∷◌, eq_iff, length, Bool-cases, Option-cases, length-take,
}
use agentic_memory_stack_for.Episodic.Words.{Words}
use agentic_memory_stack_for.Episodic.Summary.{running_summary_cap}
use agentic_memory_stack_for.Episodic.Newest.{append_running_summary-le-cap}
use agentic_memory_stack_for.Episodic.Store.{
  Store, Episode, Extra, About, in_progress, complete, is_in_progress, is_open, latest, preview,
  or_nothing, no_extra, checkpoint, add_episode, insert_episode, has_session, set_message_count,
  create_session, end_session,
}
use agentic_memory_stack_for.Episodic.Open.{count_open-none, latest-found}
use agentic_memory_stack_for.Episodic.Rows.{
  IsShort, IsLedger, same_episodes-IsLedger, all_of, IsLedger-update_episode, IsLedger-append,
}

length-preview : (n : ℕ) (prompt : Option Words) → length (or_nothing (preview n prompt)) ≤ n
length-preview n none = omega arith
length-preview n (some []) = omega arith
length-preview n (some (c ∷ cs)) = length-take n (c ∷ cs)

is_open-parts :
    (sid : String) (e : Episode)
    → is_open sid e ≡ true
    → (e.session_id ≡ sid) × (is_in_progress e.state ≡ true)
unfolding is_open
is_open-parts sid e h = ground (arith, eq_iff e.session_id sid)

-- A complete row is not open.
pub complete_shut :
    (sid : String) (e : Episode) → is_in_progress e.state ≡ false → is_open sid e ≡ true → ⊥
complete_shut sid e h k = false≢true (sym h ∙ (is_open-parts sid e k).1)

-- What a statement that may raise leaves is a ledger.
abbrev pub KeepsLedger : Option (Store × ℕ) → Type 0
KeepsLedger none = Unit
KeepsLedger (some r) = IsLedger r.0

pub add_episode-IsLedger :
    (s : Store) (sid from at : String) (goal summary : Option Words) (extra : Extra)
    → IsLedger s
    → KeepsLedger (add_episode sid from at goal summary extra complete s)
unfolding add_episode insert_episode
add_episode-IsLedger s sid from at goal summary extra v =
    elim (Bool-cases (has_session sid s.sessions)) [
      | inl e ↦ rw e (
          IsLedger-append s _ refl (λ sid' h. absurd (complete_shut sid' _ refl h))
            (λ h. absurd (false≢true h)) v)
      | inr e ↦ rw e tt
    ]

pub set_message_count-IsLedger :
    (sid : String) (f : ℕ → ℕ) (s : Store) → IsLedger s → IsLedger (set_message_count sid f s)
unfolding set_message_count
set_message_count-IsLedger sid f s v =
    same_episodes-IsLedger s (set_message_count sid f s) refl refl v

pub create_session-IsLedger :
    (sid : String) (a : About) (now : String) (s : Store)
    → IsLedger s
    → IsLedger (create_session sid a now s)
unfolding create_session
create_session-IsLedger sid a now s v =
    same_episodes-IsLedger s (create_session sid a now s) refl refl v

pub end_session-IsLedger :
    (sid at : String) (count : ℕ) (s : Store) → IsLedger s → IsLedger (end_session sid at count s)
unfolding end_session
end_session-IsLedger sid at count s v =
    same_episodes-IsLedger s (end_session sid at count s) refl refl v

-- New texts open nothing.
pub is_open-text :
    (sid : String) (e : Episode) (at : String) (goal summary : Option Words)
    → is_open sid (record e { ended_at = at; goal_text = goal; summary_text = summary }) ≡ true
    → is_open sid e ≡ true
unfolding is_open
is_open-text sid e at goal summary h = h

-- The first checkpoint of a session that has none.
add_open-IsLedger :
    (s : Store) (now sid : String) (prompt : Option Words)
    → latest (is_open sid) s.episodes ≡ none
    → IsLedger s
    → IsLedger
        (insert_episode sid now now
          (some [])
          (some (or_nothing (preview 300 prompt)))
          no_extra
          in_progress
          s).0
unfolding insert_episode
add_open-IsLedger s now sid prompt e v =
    IsLedger-append s _ refl
      (λ sid' h. rw (← (is_open-parts sid' _ h).0) (count_open-none sid s.episodes e))
      (λ h. omega (arith, length-preview 300 prompt)) v

pub checkpoint-IsLedger :
    (s : Store) (now sid : String) (prompt : Option Words)
    → IsLedger s
    → IsLedger (checkpoint now sid prompt (latest (is_open sid) s.episodes) s).0
checkpoint-IsLedger s now sid prompt v = elim (Option-cases (latest (is_open sid) s.episodes)) [
  | inl e ↦ rw e (set_message_count-IsLedger sid suc _ (add_open-IsLedger s now sid prompt e v))
  | inr (row, e) ↦
      let found = latest-found IsShort (is_open sid) s.episodes v.short e in
      let room = found.0 (is_open-parts sid row found.1).1 in
      rw e (
        set_message_count-IsLedger sid suc _ (
          IsLedger-update_episode s row.id _ (λ x. refl)
            (λ sid' x h. is_open-text sid' x now x.goal_text _ h)
            (all_of s.episodes (λ x g h.
              append_running_summary-le-cap row.summary_text (preview 200 prompt)
                running_summary_cap room))
            v))
]
