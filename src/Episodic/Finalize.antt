-- ===== src/Episodic/Finalize.antt =====
-- What the Stop hook leaves of a session.
use agentic_memory_stack_for.Prelude.{
  ℕ, zero, suc, String, ◌≡◌, refl, inl, inr, arith, Bool, true, false, ◌&&◌, Option, none, some,
  ◌==◌, List, [], ◌∷◌, ◌++◌, eqb, if◌then◌else◌, map, any, any-append, All, All-append, Bool-cases,
  Option-cases, eq_refl,
}
use agentic_memory_stack_for.Episodic.Words.{Words}
use agentic_memory_stack_for.Episodic.Store.{
  Store, Episode, is_in_progress, complete, is_open, is_done, latest, update_episode, add_episode,
  insert_episode, has_session, counted, set_message_count, is_duplicate, finalize, finalize_episode,
  no_extra,
}
use agentic_memory_stack_for.Episodic.Steps.{Between}
use agentic_memory_stack_for.Episodic.Open.{
  count_open, count_open-map, count_open-append, count_open-none, count_open-closed, latest-found,
  is_open-if,
}
use agentic_memory_stack_for.Episodic.Rows.{IsLedger, IsShort, Below}
use agentic_memory_stack_for.Episodic.Statements.{is_open-text}

-- The row `id` of the session is complete, with these texts, and no row of the session is open.
pub record IsFinal (sid : String) (goal summary : Words) (at : String) (id : ℕ) (s : Store)
    : Type 0 where
  pub shut : count_open sid s.episodes ≡ 0
  pub there : any (λ e. is_done sid e && eqb e.id id) s.episodes ≡ true
  pub texts :
      All
        (λ (e : Episode).
          eqb e.id id ≡ true
          → (e.goal_text ≡ some goal) × (e.summary_text ≡ some summary) × (e.ended_at ≡ at))
        s.episodes

module _ (sid : String) (goal summary : Words) (at : String) (id : ℕ) where
  abbrev HasTexts : Episode → Type 0
  HasTexts e =
      eqb e.id id ≡ true
      → (e.goal_text ≡ some goal) × (e.summary_text ≡ some summary) × (e.ended_at ≡ at)

  texts_update :
      (f : Episode → Episode) (es : List Episode)
      → ((e : Episode)
          → ((f e).goal_text ≡ some goal)
            × ((f e).summary_text ≡ some summary)
            × ((f e).ended_at ≡ at))
      → All HasTexts (map (λ e. if eqb e.id id then f e else e) es)
  texts_update f [] h = tt
  texts_update f (e ∷ es) h = (one (eqb e.id id) refl, texts_update f es h)
    where
      one : (b : Bool) → eqb e.id id ≡ b → HasTexts (if b then f e else e)
      one true k = λ _. h e
      one false k = λ g. cc

  there_update :
      (p : Episode → Bool) (f : Episode → Episode) (es : List Episode)
      → ((e : Episode) → p e ≡ true → is_done sid (f e) ≡ true)
      → ((e : Episode) → (f e).id ≡ e.id)
      → any (λ e. p e && eqb e.id id) es ≡ true
      → any (λ e. is_done sid e && eqb e.id id) (map (λ e. if eqb e.id id then f e else e) es)
        ≡ true
  unfolding any
  there_update p f [] h i k = cc
  there_update p f (e ∷ es) h i k = ground (arith, h e, i e, there_update p f es h i)

  texts_append :
      (es : List Episode) (e : Episode) → Below id es → HasTexts e → All HasTexts (es ++ (e ∷ []))
  texts_append es e b h = All-append HasTexts es (e ∷ []) (old es b) (h, tt)
    where
      old : (xs : List Episode) → Below id xs → All HasTexts xs
      old [] b = tt
      old (x ∷ xs) b = ((λ g. absurd (ground (arith, b.0))), old xs b.1)

is_open-done :
    (sid : String) (e : Episode) (g s : Option Words) (at : String)
    → is_open sid e ≡ true
    → is_done sid (record e { state = complete; goal_text = g; summary_text = s; ended_at = at })
      ≡ true
unfolding is_open is_done
is_open-done sid e g s at h = ground arith

is_done-text :
    (sid : String) (e : Episode) (g s : Option Words) (at : String)
    → is_done sid e ≡ true
    → is_done sid (record e { goal_text = g; summary_text = s; ended_at = at }) ≡ true
unfolding is_done
is_done-text sid e g s at h = h

is_open_complete :
    (sid : String) (e : Episode) → is_in_progress e.state ≡ false → is_open sid e ≡ false
unfolding is_open
is_open_complete sid e h = ground arith

set_count-IsFinal :
    (sid : String) (goal summary : Words) (at : String) (id : ℕ) (k : String) (f : ℕ → ℕ)
    (s : Store)
    → IsFinal sid goal summary at id s
    → IsFinal sid goal summary at id (set_message_count k f s)
unfolding set_message_count
set_count-IsFinal sid goal summary at id k f s v = record {
  shut = v.shut;
  there = v.there;
  texts = v.texts;
}

insert-IsFinal :
    (sid : String) (goal summary : Words) (at : String) (s : Store)
    → IsLedger s
    → count_open sid s.episodes ≡ 0
    → IsFinal sid goal summary at s.next_id
        (insert_episode sid at at (some goal) (some summary) no_extra complete s).0
unfolding insert_episode is_done any
insert-IsFinal sid goal summary at s v c =
    let e : Episode = record {
      id = s.next_id;
      session_id = sid;
      started_at = at;
      ended_at = at;
      goal_text = some goal;
      summary_text = some summary;
      extra = no_extra;
      state = complete;
    } in
    record {
      shut = ground (arith, count_open-append sid s.episodes e, is_open_complete sid e refl, c);
      there = ground (
        arith,
        any-append (λ x. is_done sid x && eqb x.id s.next_id) s.episodes (e ∷ []),
        eq_refl sid,
      );
      texts =
          texts_append sid goal summary at s.next_id s.episodes e v.below (λ _. (refl, refl, refl));
    }

-- The call raises, which it does for an unknown session only, or it leaves the session final.
abbrev pub FinalOrUnknown : String → Words → Words → String → Store → Option (Store × ℕ) → Type 0
FinalOrUnknown sid goal summary at s none = any (λ x. x.session_id == sid) s.sessions ≡ false
FinalOrUnknown sid goal summary at s (some r) = IsFinal sid goal summary at r.1 r.0

add-FinalOrUnknown :
    (sid : String) (goal summary : Words) (at : String) (s : Store)
    → IsLedger s
    → count_open sid s.episodes ≡ 0
    → FinalOrUnknown sid goal summary at s
        (add_episode sid at at (some goal) (some summary) no_extra complete s)
unfolding add_episode has_session
add-FinalOrUnknown sid goal summary at s v c =
    elim (Bool-cases (any (λ x. x.session_id == sid) s.sessions)) [
      | inl e ↦ rw e (insert-IsFinal sid goal summary at s v c)
      | inr e ↦ rw e e
    ]

module _ (between : Between) where
  finalize-IsFinal :
      (sid : String) (goal summary : Words) (at : String) (s : Store)
      → IsLedger s
      → FinalOrUnknown sid goal summary at s
          (finalize between sid goal summary at (latest (is_open sid) s.episodes) s)
  unfolding update_episode
  finalize-IsFinal sid goal summary at s v = elim (Option-cases (latest (is_open sid) s.episodes)) [
    | inr (row, e) ↦
        let f = λ (x : Episode). record x {
          state = complete;
          goal_text = some goal;
          summary_text = some summary;
          ended_at = at;
        } in
        let found = latest-found IsShort (is_open sid) s.episodes v.short e in
        rw e (record {
          shut = omega (
            arith,
            v.one sid,
            count_open-closed sid row.id f s.episodes (λ x. is_open_complete sid (f x) refl)
                found.2,
          );
          there =
              there_update sid goal summary at row.id (is_open sid) f s.episodes
                (λ x. is_open-done sid x _ _ at) (λ x. refl) found.2;
          texts = texts_update sid goal summary at row.id f s.episodes (λ x. (refl, refl, refl));
        })
    | inl e ↦
        let c = count_open-none sid s.episodes e in
        elim (Option-cases (latest (is_done sid) s.episodes)) [
          | inl d ↦ rw (e, d) (add-FinalOrUnknown sid goal summary at s v c)
          | inr (recent, d) ↦ elim (Bool-cases (is_duplicate between at recent)) [
            | inr k ↦ rw (e, d, k) (add-FinalOrUnknown sid goal summary at s v c)
            | inl k ↦
                let f = λ (x : Episode). record x {
                  goal_text = some goal;
                  summary_text = some summary;
                  ended_at = at;
                } in
                let found = latest-found IsShort (is_done sid) s.episodes v.short d in
                rw (e, d, k)
                  (record {
                    shut = omega (
                      arith,
                      c,
                      count_open-map sid (λ x. if eqb x.id recent.id then f x else x) s.episodes
                          (λ x.
                            is_open-if sid (eqb x.id recent.id) x (f x)
                              (is_open-text sid x at _ _)),
                    );
                    there =
                        there_update sid goal summary at recent.id (is_done sid) f s.episodes
                          (λ x. is_done-text sid x _ _ at) (λ x. refl) found.2;
                    texts =
                        texts_update sid goal summary at recent.id f s.episodes
                          (λ x. (refl, refl, refl));
                  })
          ]
        ]
  ]

  counted-FinalOrUnknown :
      (sid : String) (goal summary : Words) (at : String) (s : Store) (n : ℕ)
      (o : Option (Store × ℕ))
      → FinalOrUnknown sid goal summary at s o
      → FinalOrUnknown sid goal summary at s (counted between sid n o)
  counted-FinalOrUnknown sid goal summary at s n none h = h
  counted-FinalOrUnknown sid goal summary at s zero (some (t, id)) h = h
  counted-FinalOrUnknown sid goal summary at s (suc n) (some (t, id)) h =
      set_count-IsFinal sid goal summary at id sid (λ _. suc n) t h

  -- In a store that satisfies the ledger's invariant, finalising a session raises only when the
  -- session is unknown; otherwise it leaves an episode under the returned id that is complete, is
  -- the session's, and has the final goal, summary and end, and leaves the session no unfinished
  -- episode.
  pub finalize_episode-IsFinal :
      (s : Store) (sid : String) (goal summary : Words) (at : String) (count : ℕ)
      → IsLedger s
      → FinalOrUnknown sid goal summary at s (finalize_episode between sid goal summary at count s)
  unfolding finalize_episode
  finalize_episode-IsFinal s sid goal summary at count v =
      counted-FinalOrUnknown sid goal summary at s count _
        (finalize-IsFinal sid goal summary at s v)
