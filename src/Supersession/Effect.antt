-- ===== src/Supersession/Effect.antt =====
-- What a supersession that is done has written, and what it has left alone.
use agentic_memory_stack_for.Prelude.{
  String, ◌≡◌, refl, inl, inr, Bool, true, false, Option, none, some, List, ◌∷◌, arith, ◌==◌,
  Bool-cases, Option-cases, or_else-ne-none, if◌then◌else◌, ap, ◌∙◌,
}
use agentic_memory_stack_for.Prelude.Text.{mem}
use agentic_memory_stack_for.Prelude.Dict.{update, keys, get_of_keys}
use agentic_memory_stack_for.Payload.{Payload, field}
use agentic_memory_stack_for.Payload.Laws.{field-update_missing}
use agentic_memory_stack_for.Supersession.Ids.{norm_id}
use agentic_memory_stack_for.Supersession.Rules.{
  full_keys, partial_keys, full_payload, partial_payload, record_refusal, precheck,
}
use agentic_memory_stack_for.Supersession.Store.{Read, PayloadStore}
use agentic_memory_stack_for.Supersession.Transaction.{
  unless_noop, as_intent, supersede_line, Line, Body, done, World, supersede_payload, read_id,
  done_body, commit, decide, on_reads, run_supersede,
}

-- The keys that a supersession of this scope writes.
abbrev pub written_keys : String → List String
written_keys scope = "updated_at" ∷ (if scope == "full" then full_keys else partial_keys)

keys-supersede_payload :
    (loser : Payload) (winner_id scope : String) (detail : Option String) (now_iso : String)
    → keys (supersede_payload loser winner_id scope detail now_iso) ≡ written_keys scope
unfolding supersede_payload full_payload partial_payload
keys-supersede_payload loser winner_id scope detail now_iso = elim (Bool-cases (scope == "full")) [
  | inl e ↦ rw e refl
  | inr e ↦ rw e refl
]

-- What is written leaves every other key as it was.
pub field-supersede_payload :
    (loser : Payload) (winner_id scope : String) (detail : Option String) (now_iso k : String)
    → mem k (written_keys scope) ≡ false
    → field k (update (supersede_payload loser winner_id scope detail now_iso) loser)
      ≡ field k loser
field-supersede_payload loser winner_id scope detail now_iso k h =
    field-update_missing k _ loser (
      get_of_keys k _
        (ap (mem k) (keys-supersede_payload loser winner_id scope detail now_iso) ∙ h))

module _ (b : PayloadStore) (accepts : Line → Bool) where
  open b use {State}

  commit_done :
      (line : Line) (write : State → Option State) (body body' : Body) (w w' : World b accepts)
      → commit b accepts line write body w ≡ (done body', w')
      → write w.store ≡ some w'.store
  unfolding commit
  commit_done line write body body' w w' h = ground arith

precheck-found :
    (li wi : String) (loser : Payload) (winner : Option Payload) (s : String) (d : Option String)
    (shared : List String) (r : Option String)
    → precheck li wi (some loser) winner s d shared r ≡ none
    → (p : Payload) × (winner ≡ some p)
unfolding precheck record_refusal
precheck-found li wi loser (some p) s d shared r h = (p, refl)
precheck-found li wi loser none s d shared r h = absurd (or_else-ne-none _ _ h)

module _ (b : PayloadStore) (accepts : Line → Bool) (mid winner_id scope : String)
    (detail reason source : Option String) (shared_brands : List String) (now_iso : String) where
  open b use {read, set_payload}

  -- Both records were read, the matrix let the request through, and the payload was written.
  pub record IsWritten (w w' : World b accepts) (loser winner : Payload) : Type 0 where
    pub loser_read : read_id b accepts mid w ≡ some (some loser)
    pub winner_read : read_id b accepts winner_id w ≡ some (some winner)
    pub passed :
        precheck mid winner_id (some loser) (some winner) scope detail shared_brands reason ≡ none
    pub written :
        set_payload (norm_id mid) (supersede_payload loser winner_id scope detail now_iso) w.store
        ≡ some w'.store

  unless_noop_done :
      (n : Bool) (loser : Payload) (body : Body) (w w' : World b accepts)
      → unless_noop b accepts mid winner_id scope detail reason source shared_brands now_iso n loser
          w
        ≡ (done body, w')
      → body.noop ≡ false
      → set_payload (norm_id mid) (supersede_payload loser winner_id scope detail now_iso) w.store
        ≡ some w'.store
  unfolding unless_noop
  unless_noop_done true loser body w w' h f = ground arith
  unless_noop_done false loser body w w' h f =
      commit_done b accepts
        (as_intent "supersede-intent"
          (supersede_line mid winner_id scope detail reason source loser))
        (set_payload (norm_id mid) (supersede_payload loser winner_id scope detail now_iso))
        (done_body b accepts mid winner_id scope detail reason source shared_brands now_iso loser)
        body w w' h

  on_reads_done :
      (l r : Read) (body : Body) (w w' : World b accepts)
      → read_id b accepts mid w ≡ l
      → read_id b accepts winner_id w ≡ r
      → on_reads b accepts mid winner_id scope detail reason source shared_brands now_iso l r w
        ≡ (done body, w')
      → body.noop ≡ false
      → (loser : Payload) × (winner : Payload) × IsWritten w w' loser winner
  unfolding on_reads decide
  on_reads_done none r body w w' el er h f = ground arith
  on_reads_done (some l) none body w w' el er h f = ground arith
  on_reads_done (some none) (some winner) body w w' el er h f =
      elim (Option-cases (precheck mid winner_id none winner scope detail shared_brands reason)) [
        | inl p ↦ let e = rw p at h in ground arith
        | inr (x, p) ↦ ground arith
      ]
  on_reads_done (some (some loser)) (some winner) body w w' el er h f =
      elim (Option-cases
        (precheck mid winner_id (some loser) winner scope detail shared_brands reason)) [
          | inl p ↦
              let (found, e) =
                precheck-found mid winner_id loser winner scope detail shared_brands reason p in
              let h' = rw p at h in
              (
                loser,
                found,
                record {
                  loser_read = el;
                  winner_read = er ∙ ap some e;
                  passed = rw e at p;
                  written = unless_noop_done _ loser body w w' h' f;
                },
              )
          | inr (x, p) ↦ let h' = rw p at h in ground arith
        ]

  -- A supersession that is done, and is no repetition, has written.
  pub supersede-IsWritten :
      (body : Body) (w w' : World b accepts)
      → run_supersede b accepts mid winner_id scope detail reason source shared_brands now_iso w
        ≡ (done body, w')
      → body.noop ≡ false
      → (loser : Payload) × (winner : Payload) × IsWritten w w' loser winner
  unfolding run_supersede
  supersede-IsWritten body w w' h f = on_reads_done _ _ body w w' refl refl h f
