-- ===== src/Supersession/Audit.antt =====
-- The audit trail of the supersession transactions: nothing is written before its intent line.
use agentic_memory_stack_for.Prelude.{
  String, ◌≡◌, refl, ◌⊎◌, inl, inr, Bool, true, false, Option, none, some, List, [], ◌∷◌, ◌++◌,
  Option-cases, Bool-cases,
}
use agentic_memory_stack_for.Payload.{Payload}
use agentic_memory_stack_for.Supersession.Ids.{norm_id}
use agentic_memory_stack_for.Supersession.Rules.{Refusal, precheck, is_noop}
use agentic_memory_stack_for.Supersession.Store.{Read, PayloadStore}
use agentic_memory_stack_for.Supersession.Transaction.{
  Line, Body, World, done_body, commit, decide, on_reads, supersede_line, as_intent,
  supersede_payload, read_id, run_supersede,
}

module _ (b : PayloadStore) (accepts : Line → Bool) where
  open b use {State}

  commit_audited :
      (line : Line) (write : State → Option State) (body : Body) (w : World b accepts)
      → let w' = (commit b accepts line write body w).1 in
        (w' ≡ w)
        ⊎ ((accepts line ≡ true)
            × (w'.ledger ≡ w.ledger ++ line ∷ [])
            × ((w'.store ≡ w.store) ⊎ (write w.store ≡ some w'.store)))
  unfolding commit
  commit_audited line write body w = elim (Bool-cases (accepts line)) [
    | inr no' ↦ rw no' (inl refl)
    | inl yes' ↦ elim (Option-cases (write w.store)) [
      | inl raised ↦ rw (yes', raised) (inr (refl, refl, inl refl))
      | inr (s, e) ↦ rw (yes', e) (inr (refl, refl, inr refl))
    ]
  ]

module _ (b : PayloadStore) (accepts : Line → Bool) (mid winner_id scope : String)
    (detail reason source : Option String) (shared_brands : List String) (now_iso : String) where
  open b use {set_payload}

  -- The intent line of a supersession of `loser`.
  abbrev pub intent : Payload → Line
  intent loser =
      as_intent "supersede-intent" (supersede_line mid winner_id scope detail reason source loser)

  -- The loser that was read passed the matrix, its intent line was accepted and is the one new line
  -- of the ledger, and the store has either not changed or has the one payload write.
  pub record IsAudited (w w' : World b accepts) (loser : Payload) (winner : Option Payload)
      : Type 0 where
    pub loser_read : read_id b accepts mid w ≡ some (some loser)
    pub winner_read : read_id b accepts winner_id w ≡ some winner
    pub passed : precheck mid winner_id (some loser) winner scope detail shared_brands reason ≡ none
    pub fresh : is_noop loser winner_id scope detail ≡ false
    pub accepted : accepts (intent loser) ≡ true
    pub logged : w'.ledger ≡ w.ledger ++ intent loser ∷ []
    pub written :
        (w'.store ≡ w.store)
        ⊎ (set_payload
              (norm_id mid)
              (supersede_payload loser winner_id scope detail now_iso)
              w.store
            ≡ some w'.store)

  decide_missing :
      (r : Option Refusal) (w : World b accepts)
      → (decide b accepts mid winner_id scope detail reason source shared_brands now_iso r none w).1
        ≡ w
  unfolding decide
  decide_missing none w = refl
  decide_missing (some r) w = refl

  decide-IsAudited :
      (loser : Payload) (winner : Option Payload) (w : World b accepts) (r : Option Refusal)
      (n : Bool)
      → read_id b accepts mid w ≡ some (some loser)
      → read_id b accepts winner_id w ≡ some winner
      → precheck mid winner_id (some loser) winner scope detail shared_brands reason ≡ r
      → is_noop loser winner_id scope detail ≡ n
      → let w' =
          (decide b accepts mid winner_id scope detail reason source shared_brands now_iso r
            (some loser)
            w).1 in
        (w' ≡ w) ⊎ IsAudited w w' loser winner
  unfolding decide
  decide-IsAudited loser winner w (some r) n el ew ep en = inl refl
  decide-IsAudited loser winner w none true el ew ep en = rw en (inl refl)
  decide-IsAudited loser winner w none false el ew ep en =
      rw en
        (elim (commit_audited b accepts (intent loser)
          (set_payload (norm_id mid) (supersede_payload loser winner_id scope detail now_iso))
          (done_body b accepts mid winner_id scope detail reason source shared_brands now_iso loser)
          w) [
            | inl same ↦ inl same
            | inr (ok, logged, written) ↦ inr (record {
              loser_read = el;
              winner_read = ew;
              passed = ep;
              fresh = en;
              accepted = ok;
              logged = logged;
              written = written;
            })
          ])

  on_reads-IsAudited :
      (w : World b accepts) (l r : Read)
      → read_id b accepts mid w ≡ l
      → read_id b accepts winner_id w ≡ r
      → let w' =
          (on_reads b accepts mid winner_id scope detail reason source shared_brands now_iso l r
            w).1 in
        (w' ≡ w) ⊎ ((loser : Payload) × (winner : Option Payload) × IsAudited w w' loser winner)
  unfolding on_reads
  on_reads-IsAudited w none r el er = inl refl
  on_reads-IsAudited w (some l) none el er = inl refl
  on_reads-IsAudited w (some none) (some winner) el er = inl (decide_missing _ w)
  on_reads-IsAudited w (some (some loser)) (some winner) el er =
      elim (decide-IsAudited loser winner w _ _ el er refl refl) [
        | inl same ↦ inl same
        | inr a ↦ inr (loser, winner, a)
      ]

  -- Whatever a supersession returns, the store and the ledger are untouched, or the loser that was
  -- read passed the refusal matrix and is no repetition, its intent line was accepted and is the
  -- one new line of the ledger, and the store has not changed or has the one payload write.
  pub run_supersede-IsAudited :
      (w : World b accepts)
      → let w' =
          (run_supersede b accepts mid winner_id scope detail reason source shared_brands now_iso
            w).1 in
        (w' ≡ w) ⊎ ((loser : Payload) × (winner : Option Payload) × IsAudited w w' loser winner)
  unfolding run_supersede
  run_supersede-IsAudited w =
      on_reads-IsAudited w (read_id b accepts mid w) (read_id b accepts winner_id w) refl refl
