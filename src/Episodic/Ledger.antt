-- ===== src/Episodic/Ledger.antt =====
-- The invariant of the episodic ledger, after any statements.
use mathlib.Core.Bool.{false≢true}
use mathlib.Core.Path.{subst}
use agentic_memory_stack_for.Prelude.{
  ℕ, zero, suc, String, ◌≡◌, refl, sym, ap, ◌∙◌, inl, inr, arith, Bool, true, false, ◌&&◌, Option,
  none, some, List, [], ◌∷◌, ◌==◌, eqb, if◌then◌else◌, map, any, All, All-map, Bool-cases,
  Option-cases, &&-left, &&-right,
}
use agentic_memory_stack_for.Episodic.Words.{Words}
use agentic_memory_stack_for.Episodic.Store.{
  Store, Episode, About, State, in_progress, complete, abandoned, is_in_progress, is_complete,
  is_open, is_done, latest, typed, no_extra, upsert_in_progress_episode, create_session,
  is_duplicate, finalize, count_if_any, counted, finalize_episode, abandon_ids,
}
use agentic_memory_stack_for.Episodic.Steps.{
  Between, Step, opened, ended, checkpointed, finalized, added, swept, Run, stop, step, empty,
}
use agentic_memory_stack_for.Episodic.Open.{count_open, latest-found, is_open-if}
use agentic_memory_stack_for.Episodic.Rows.{
  IsShort, Apart, IsKeyed, IsLedger, id-if, all_of, IsLedger-update_episode, IsLedger-map,
}
use agentic_memory_stack_for.Episodic.Statements.{
  complete_shut, add_episode-IsLedger, KeepsLedger, set_message_count-IsLedger,
  create_session-IsLedger, end_session-IsLedger, is_open-text, checkpoint-IsLedger,
}

-- In a keyed table, the id of a complete row is no unfinished one's.
Apart-is_done :
    (a id : ℕ) (es : List Episode)
    → a ≡ id
    → Apart a es
    → All (λ (e : Episode). eqb e.id id ≡ true → is_in_progress e.state ≡ false) es
Apart-is_done a id [] i h = tt
Apart-is_done a id (e ∷ es) i h =
    ((λ k. absurd (false≢true (sym h.0 ∙ ap (eqb e.id) i ∙ k))), Apart-is_done a id es i h.1)

any-other :
    (p : Episode → Bool) (a id : ℕ) (es : List Episode)
    → Apart a es
    → any (λ e. p e && eqb e.id id) es ≡ true
    → eqb a id ≡ false
unfolding any
any-other p a id [] h k = cc
any-other p a id (e ∷ es) h k = elim (Bool-cases (p e && eqb e.id id)) [
  | inl g ↦ ground (arith, h.0)
  | inr g ↦
      let rest : any (λ x. p x && eqb x.id id) es ≡ true = ground arith in
      any-other p a id es h.1 rest
]

is_done-shut : (sid : String) (e : Episode) → is_done sid e ≡ true → is_in_progress e.state ≡ false
unfolding is_done
is_done-shut sid e h = state_shut e.state (&&-right (e.session_id == sid) (is_complete e.state) h)
  where
    state_shut : (s : State) → is_complete s ≡ true → is_in_progress s ≡ false
    state_shut in_progress k = sym k
    state_shut complete k = refl
    state_shut abandoned k = refl

done_rows :
    (sid : String) (id : ℕ) (es : List Episode)
    → IsKeyed es
    → any (λ e. is_done sid e && eqb e.id id) es ≡ true
    → All (λ (e : Episode). eqb e.id id ≡ true → is_in_progress e.state ≡ false) es
unfolding any
done_rows sid id [] h k = cc
done_rows sid id (e ∷ es) h k = elim (Bool-cases (is_done sid e && eqb e.id id)) [
  | inl a ↦
      let i : e.id ≡ id = ground arith in
      ((λ _. is_done-shut sid e (&&-left _ _ a)), Apart-is_done e.id id es i h.0)
  | inr a ↦
      let rest : any (λ x. is_done sid x && eqb x.id id) es ≡ true = ground arith in
      (
        (λ g. absurd (false≢true (sym (any-other (is_done sid) e.id id es h.0 rest) ∙ g))),
        done_rows sid id es h.1 rest,
      )
]

upsert-IsLedger :
    (s : Store) (now sid : String) (a : About) (prompt : Option Words)
    → IsLedger s
    → IsLedger (upsert_in_progress_episode now sid a prompt s).0
unfolding upsert_in_progress_episode
upsert-IsLedger s now sid a prompt v =
    checkpoint-IsLedger (create_session sid a now s) now sid (typed prompt)
      (create_session-IsLedger sid a now s v)

abandon_ids-IsLedger :
    (stale : String → Bool) (ids : List ℕ) (s : Store)
    → IsLedger s
    → IsLedger (abandon_ids stale ids s)
unfolding abandon_ids
abandon_ids-IsLedger stale ids s v =
    IsLedger-map (λ e. if due e then record e { state = abandoned } else e)
      (λ e. id-if (due e) e (record e { state = abandoned }) refl) s
      (λ sid e.
        is_open-if sid (due e) e (record e { state = abandoned })
          (λ h. absurd (complete_shut sid _ refl h)))
      (short_swept s.episodes v.short) v
  where
    due : Episode → Bool
    due e = is_in_progress e.state && stale e.ended_at && any (eqb e.id) ids

    short_one :
        (b : Bool) (e : Episode)
        → IsShort e
        → IsShort (if b then record e { state = abandoned } else e)
    short_one true e g = λ h. absurd (false≢true h)
    short_one false e g = g

    short_swept :
        (es : List Episode)
        → All IsShort es
        → All IsShort (map (λ e. if due e then record e { state = abandoned } else e) es)
    short_swept [] h = tt
    short_swept (e ∷ es) h = (short_one (due e) e h.0, short_swept es h.1)

empty-IsLedger : IsLedger empty
unfolding count_open
empty-IsLedger = record { one = λ sid. omega arith; short = tt; keyed = tt; below = tt }

module _ (between : Between) where
  count_if_any-IsLedger :
      (sid : String) (n : ℕ) (s : Store) → IsLedger s → IsLedger (count_if_any between sid n s)
  count_if_any-IsLedger sid zero s v = v
  count_if_any-IsLedger sid (suc n) s v = set_message_count-IsLedger sid (λ _. suc n) s v

  counted-IsLedger :
      (sid : String) (n : ℕ) (o : Option (Store × ℕ))
      → KeepsLedger o
      → KeepsLedger (counted between sid n o)
  counted-IsLedger sid n none h = tt
  counted-IsLedger sid n (some (t, id)) h = count_if_any-IsLedger sid n t h

  finalize-IsLedger :
      (sid : String) (goal summary : Words) (at : String) (o : Option Episode) (s : Store)
      → IsLedger s
      → KeepsLedger (finalize between sid goal summary at o s)
  finalize-IsLedger sid goal summary at (some row) s v =
      IsLedger-update_episode s row.id _ (λ x. refl)
        (λ sid' x h. absurd (complete_shut sid' _ refl h))
        (all_of s.episodes (λ x g h. absurd (false≢true h))) v
  finalize-IsLedger sid goal summary at none s v =
      elim (Option-cases (latest (is_done sid) s.episodes)) [
        | inl e ↦ rw e (add_episode-IsLedger s sid at at (some goal) (some summary) no_extra v)
        | inr (recent, e) ↦ elim (Bool-cases (is_duplicate between at recent)) [
          | inl d ↦
              rw (e, d)
                (IsLedger-update_episode s recent.id _ (λ x. refl)
                  (λ sid' x h. is_open-text sid' x at (some goal) (some summary) h)
                  (All-map _ _ s.episodes (λ x g k h. absurd (false≢true (sym (g k) ∙ h)))
                    (done_rows sid recent.id s.episodes v.keyed
                      (latest-found IsShort (is_done sid) s.episodes v.short e).2))
                  v)
          | inr d ↦
              rw (e, d) (add_episode-IsLedger s sid at at (some goal) (some summary) no_extra v)
        ]
      ]

  finalize_episode-IsLedger :
      (s : Store) (sid : String) (goal summary : Words) (at : String) (count : ℕ)
      → IsLedger s
      → KeepsLedger (finalize_episode between sid goal summary at count s)
  unfolding finalize_episode
  finalize_episode-IsLedger s sid goal summary at count v =
      counted-IsLedger sid count _
        (finalize-IsLedger sid goal summary at (latest (is_open sid) s.episodes) s v)

  step-IsLedger :
      (o : Option (Store × ℕ)) (t : Store) (id : ℕ) → o ≡ some (t, id) → KeepsLedger o → IsLedger t
  step-IsLedger none t id e h = absurd cc
  step-IsLedger (some r) t id e h = subst IsLedger (ap (λ o. stored o r.0) e) h
    where
      stored : Option (Store × ℕ) → Store → Store
      stored none d = d
      stored (some q) d = q.0

  -- One statement keeps the ledger.
  Step-IsLedger : {s t : Store} → Step between s t → IsLedger s → IsLedger t
  Step-IsLedger (opened s sid a now) v = create_session-IsLedger sid a now s v
  Step-IsLedger (ended s sid at count) v = end_session-IsLedger sid at count s v
  Step-IsLedger (checkpointed s now sid a prompt) v = upsert-IsLedger s now sid a prompt v
  Step-IsLedger (finalized s t sid goal summary at count id e) v =
      step-IsLedger _ t id e (finalize_episode-IsLedger s sid goal summary at count v)
  Step-IsLedger (added s t sid from at goal summary extra id e) v =
      step-IsLedger _ t id e (add_episode-IsLedger s sid from at goal summary extra v)
  Step-IsLedger (swept s stale ids) v = abandon_ids-IsLedger stale ids s v

  Run-IsLedger : {s t : Store} → Run between s t → IsLedger s → IsLedger t
  Run-IsLedger (stop s) v = v
  Run-IsLedger (step s t u r st) v = Step-IsLedger st (Run-IsLedger r v)

  -- After any sequence of the ledger's statements from the empty store, a session has at most one
  -- unfinished episode, the running summary of an unfinished episode is at most the cap long, the
  -- ids differ and the next id is above them all.
  pub run-IsLedger : {t : Store} → Run between empty t → IsLedger t
  run-IsLedger r = Run-IsLedger r empty-IsLedger
