-- ===== src/Supersession/Undo.antt =====
-- Clearing a supersession: what it deletes, and that it undoes a full supersession.
use agentic_memory_stack_for.Prelude.{
  String, ◌≡◌, ◌≢◌, refl, inl, inr, Bool, true, false, Option, none, some, List, [], ◌∷◌, ◌++◌,
  arith, ◌==◌, eq_iff, Bool-cases, if◌then◌else◌, ◌∙◌, ==_false, eq_refl,
}
use agentic_memory_stack_for.Prelude.Text.{mem}
use agentic_memory_stack_for.Prelude.Dict.{update, without}
use agentic_memory_stack_for.Payload.{Payload, scalar, null, text, field}
use agentic_memory_stack_for.Payload.Laws.{field-without, field-put}
use agentic_memory_stack_for.Supersession.Ids.{norm_id, is_memory_id}
use agentic_memory_stack_for.Supersession.Rules.{Refusal, full_keys, clear_keys, has_supersession}
use agentic_memory_stack_for.Supersession.Store.{Read, PayloadStore}
use agentic_memory_stack_for.Supersession.Transaction.{
  Line, Body, done, World, run_supersede, unsupersede_body, stamp_cleared, clear_if_set, clear,
  on_read, run_unsupersede, unsupersede_line, as_intent,
}
use agentic_memory_stack_for.Supersession.Effect.{written_keys}
use agentic_memory_stack_for.Supersession.Frame.{supersede-IsFramed}

module _ (b : PayloadStore) (accepts : Line → Bool) (mid scope : String) (reason : Option String)
    (now_iso : String) where
  open b use {State, read, set_payload, delete_keys, read-set_payload, read-delete_keys}

  abbrev stamp : Payload
  stamp = ("updated_at", text now_iso) ∷ []

  -- The two writes of a clear, one after the other.
  record IsStamped (w w' : World b accepts) (loser : Payload) (keys : List String) : Type 0 where
    was : read (norm_id mid) w.store ≡ some (some loser)
    chosen : clear_keys scope ≡ some keys
    between : State
    deleted : delete_keys (norm_id mid) keys w.store ≡ some between
    stamped : set_payload (norm_id mid) stamp between ≡ some w'.store

  stamp_cleared_done :
      (s : Option State) (body body' : Body) (w w' : World b accepts)
      → stamp_cleared b accepts mid scope reason now_iso s body w ≡ (done body', w')
      → (t : State) × (s ≡ some t) × (set_payload (norm_id mid) stamp t ≡ some w'.store)
  unfolding stamp_cleared
  stamp_cleared_done none body body' w w' h = ground arith
  stamp_cleared_done (some t) body body' w w' h = (t, refl, ground arith)

  clear_if_set_done :
      (n : Bool) (keys : List String) (loser : Payload) (body : Body) (w w' : World b accepts)
      → clear_if_set b accepts mid scope reason now_iso n keys loser w ≡ (done body, w')
      → body.noop ≡ false
      → (t : State) × (delete_keys (norm_id mid) keys w.store ≡ some t)
        × (set_payload (norm_id mid) stamp t ≡ some w'.store)
  unfolding clear_if_set
  clear_if_set_done false keys loser body w w' h f = ground arith
  clear_if_set_done true keys loser body w w' h f =
      let line = as_intent "unsupersede-intent" (unsupersede_line mid scope reason keys loser) in
      elim (Bool-cases (accepts line)) [
        | inl e ↦
            let h' = rw e at h in
            stamp_cleared_done (delete_keys (norm_id mid) keys w.store)
              (unsupersede_body b accepts mid scope reason now_iso false
                (some (unsupersede_line mid scope reason keys loser)))
              body (record w { ledger = w.ledger ++ line ∷ [] }) w' h'
        | inr e ↦ let h' = rw e at h in ground arith
      ]

  clear_done :
      (r : Option Refusal) (l : Option Payload) (ks : Option (List String)) (body : Body)
      (w w' : World b accepts)
      → read (norm_id mid) w.store ≡ some l
      → clear_keys scope ≡ ks
      → clear b accepts mid scope reason now_iso r l ks w ≡ (done body, w')
      → body.noop ≡ false
      → (loser : Payload) × (keys : List String) × IsStamped w w' loser keys
  unfolding clear
  clear_done (some r) l ks body w w' el ek h f = ground arith
  clear_done none none ks body w w' el ek h f = ground arith
  clear_done none (some loser) none body w w' el ek h f = ground arith
  clear_done none (some loser) (some keys) body w w' el ek h f =
      let (t, d, s) = clear_if_set_done (has_supersession loser keys) keys loser body w w' h f in
      (loser, keys, record { was = el; chosen = ek; between = t; deleted = d; stamped = s })

  on_read_done :
      (r : Read) (body : Body) (w w' : World b accepts)
      → read (norm_id mid) w.store ≡ r
      → on_read b accepts mid scope reason now_iso r w ≡ (done body, w')
      → body.noop ≡ false
      → (loser : Payload) × (keys : List String) × IsStamped w w' loser keys
  unfolding on_read
  on_read_done none body w w' el h f = ground arith
  on_read_done (some l) body w w' el h f = clear_done _ l _ body w w' el refl h f

  -- One record has changed: the keys of the scope are gone, `updated_at` is new, every other key
  -- is as it was.
  pub record IsCleared (w w' : World b accepts) (loser after : Payload) (keys : List String)
      : Type 0 where
    pub chosen : clear_keys scope ≡ some keys
    pub was : read (norm_id mid) w.store ≡ some (some loser)
    pub is_now : read (norm_id mid) w'.store ≡ some (some after)
    pub fields :
        (k : String)
        → field k after ≡ (
            if "updated_at" == k
            then text now_iso
            else if mem k keys
            then scalar null
            else field k loser)
    pub elsewhere : (j : String) → norm_id mid ≢ j → read j w'.store ≡ read j w.store

  IsCleared-of_stamped :
      (w w' : World b accepts) (loser : Payload) (keys : List String)
      → IsStamped w w' loser keys
      → IsCleared w w' loser (update stamp (without keys loser)) keys
  unfolding update
  IsCleared-of_stamped w w' loser keys x =
      let id = norm_id mid in
      let gone : read id x.between ≡ some (some (without keys loser)) =
        read-delete_keys id id keys w.store x.between x.deleted ∙ rw (eq_refl, x.was) refl in
      record {
        chosen = x.chosen;
        was = x.was;
        is_now =
            read-set_payload id id stamp x.between w'.store x.stamped ∙ rw (eq_refl, gone) refl;
        fields = λ k.
            field-put "updated_at" k (text now_iso) (without keys loser) ∙ rw field-without refl;
        elsewhere = λ j h.
            read-set_payload id j stamp x.between w'.store x.stamped
            ∙ rw (==_false _ _ h)
                (read-delete_keys id j keys w.store x.between x.deleted ∙ rw (==_false _ _ h) refl);
      }

  -- A clear that is done and no no-op deletes exactly the keys of its scope from one record, sets
  -- its `updated_at`, and leaves every other record alone.
  pub unsupersede-IsCleared :
      (body : Body) (w w' : World b accepts)
      → run_unsupersede b accepts mid scope reason now_iso w ≡ (done body, w')
      → body.noop ≡ false
      → (loser : Payload) × (after : Payload) × (keys : List String) × IsCleared w w' loser after
          keys
  unfolding run_unsupersede
  unsupersede-IsCleared body w w' h f = elim (Bool-cases (is_memory_id mid)) [
    | inr bad ↦ let h' = rw bad at h in ground arith
    | inl good ↦
        let (loser, keys, x) = on_read_done _ body w w' refl (rw good at h) f in
        (loser, _, keys, IsCleared-of_stamped w w' loser keys x)
  ]

stamp_kept : (k : String) → mem k full_keys ≡ true → ("updated_at" == k) ≡ false
unfolding mem
stamp_kept k h = ground (
  arith,
  eq_iff "updated_at" k,
  eq_iff k "superseded_by",
  eq_iff k "superseded_at",
  eq_iff k "superseded_via",
  eq_iff "updated_at" "superseded_by",
  eq_iff "updated_at" "superseded_at",
  eq_iff "updated_at" "superseded_via",
)

frame_keys :
    (k : String)
    → mem k (written_keys "full") ≡ false
    → (("updated_at" == k) ≡ false) × (mem k full_keys ≡ false)
unfolding mem
frame_keys k h = ground (arith, eq_iff "updated_at" k, eq_iff k "updated_at")

clear_keys-full : (keys : List String) → clear_keys "full" ≡ some keys → keys ≡ full_keys
unfolding clear_keys
clear_keys-full keys h = ground arith

module _ (b : PayloadStore) (accepts : Line → Bool) (mid winner_id : String)
    (detail reason source : Option String) (shared_brands : List String) (at_supersede : String)
    (clear_reason : Option String) (at_clear : String) where
  open b use {read}

  -- A full supersession and the clear of its scope, both done and neither a no-op, leave a record
  -- with no supersession in which every key but those and `updated_at` is as it was before both,
  -- and leave every other record alone.
  pub unsupersede-supersede :
      (body body' : Body) (w w' w'' : World b accepts)
      → run_supersede b accepts mid winner_id "full" detail reason source shared_brands at_supersede
          w
        ≡ (done body, w')
      → body.noop ≡ false
      → run_unsupersede b accepts mid "full" clear_reason at_clear w' ≡ (done body', w'')
      → body'.noop ≡ false
      → (before : Payload) × (after : Payload) × (read (norm_id mid) w.store ≡ some (some before))
        × (read (norm_id mid) w''.store ≡ some (some after))
        × ((k : String) → mem k full_keys ≡ true → field k after ≡ scalar null)
        × ((k : String) → mem k (written_keys "full") ≡ false → field k after ≡ field k before)
        × ((j : String) → norm_id mid ≢ j → read j w''.store ≡ read j w.store)
  unsupersede-supersede body body' w w' w'' h f g e =
      let (loser, hidden, fr) =
        supersede-IsFramed b accepts mid winner_id "full" detail reason source shared_brands
          at_supersede body w w' h f in
      let (loser', after, keys, c) =
        unsupersede-IsCleared b accepts mid "full" clear_reason at_clear body' w' w'' g e in
      let all_keys = clear_keys-full keys c.chosen in
      let same : hidden ≡ loser' = cc (fr.is_now, c.was) in
      (
        loser,
        after,
        fr.was,
        c.is_now,
        (λ k m. c.fields k ∙ rw all_keys (rw (stamp_kept k m, m) refl)),
        (λ k m.
            c.fields k
            ∙ rw (all_keys, ← same)
                (rw ((frame_keys k m).0, (frame_keys k m).1) (fr.others_kept k m))),
        (λ j n. c.elsewhere j n ∙ fr.elsewhere j n),
      )
