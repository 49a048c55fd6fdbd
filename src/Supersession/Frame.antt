-- ===== src/Supersession/Frame.antt =====
-- The records after a supersession that is done: the one record that changed, the keys that
-- changed in it, and what it now says.
use mathlib.Core.List
use agentic_memory_stack_for.Prelude.{
  String, ◌≡◌, ◌≢◌, ◌≤◌, refl, Bool, false, Option, some, List, [], ◌∷◌, arith, length,
  length-append, length-drop, ap, ◌∙◌, ==_false, eq_refl,
}
use agentic_memory_stack_for.Prelude.Text.{mem}
use agentic_memory_stack_for.Prelude.Dict.{Dict, get, update}
use agentic_memory_stack_for.Payload.{Payload, Scalar, entry, items, text, field}
use agentic_memory_stack_for.Payload.Laws.{field-update_found}
use agentic_memory_stack_for.Supersession.Ids.{norm_id}
use agentic_memory_stack_for.Supersession.Rules.{
  full_payload, partial_payload, partials_of, entries_of, partials, appended_entries, new_entry,
  partial_max_entries,
}
use agentic_memory_stack_for.Supersession.Store.{PayloadStore}
use agentic_memory_stack_for.Supersession.Transaction.{
  Line, Body, done, World, supersede_payload, or_empty, read_id, run_supersede,
}
use agentic_memory_stack_for.Supersession.Effect.{
  written_keys, field-supersede_payload, IsWritten, supersede-IsWritten,
}

module _ (b : PayloadStore) (accepts : Line → Bool) (mid winner_id scope : String)
    (detail reason source : Option String) (shared_brands : List String) (now_iso : String) where
  open b use {read, set_payload, read-set_payload}

  -- `loser` was read, `after` is read now, they differ in no key but those of the scope, and no
  -- other record has changed.
  pub record IsFramed (w w' : World b accepts) (loser after : Payload) : Type 0 where
    pub was : read (norm_id mid) w.store ≡ some (some loser)
    pub is_now : read (norm_id mid) w'.store ≡ some (some after)
    pub is_update : after ≡ update (supersede_payload loser winner_id scope detail now_iso) loser
    pub others_kept :
        (k : String) → mem k (written_keys scope) ≡ false → field k after ≡ field k loser
    pub elsewhere : (j : String) → norm_id mid ≢ j → read j w'.store ≡ read j w.store

  pub read_id-found :
      (id : String) (w : World b accepts) (p : Payload)
      → read_id b accepts id w ≡ some (some p)
      → read (norm_id id) w.store ≡ some (some p)
  unfolding read_id
  read_id-found id w p h = ground arith

  pub IsFramed-of_written :
      (w w' : World b accepts) (loser winner : Payload)
      → IsWritten b accepts mid winner_id scope detail reason source shared_brands now_iso w w'
          loser winner
      → IsFramed w w' loser (update (supersede_payload loser winner_id scope detail now_iso) loser)
  IsFramed-of_written w w' loser winner x =
      let new = supersede_payload loser winner_id scope detail now_iso in
      let was = read_id-found mid w loser x.loser_read in
      record {
        was = was;
        is_now =
            read-set_payload (norm_id mid) (norm_id mid) new w.store w'.store x.written
            ∙ rw (eq_refl, was) refl;
        is_update = refl;
        others_kept = λ k h. field-supersede_payload loser winner_id scope detail now_iso k h;
        elsewhere = λ j h.
            read-set_payload (norm_id mid) j new w.store w'.store x.written
            ∙ rw (==_false _ _ h) refl;
      }

  -- A supersession that is done and no repetition changes one record, in no key but `updated_at`
  -- and those of its scope.
  pub supersede-IsFramed :
      (body : Body) (w w' : World b accepts)
      → run_supersede b accepts mid winner_id scope detail reason source shared_brands now_iso w
        ≡ (done body, w')
      → body.noop ≡ false
      → (loser : Payload) × (after : Payload) × IsFramed w w' loser after
  supersede-IsFramed body w w' h f =
      let (loser, winner, x) =
        supersede-IsWritten b accepts mid winner_id scope detail reason source shared_brands now_iso
          body w w' h f in
      (loser, _, IsFramed-of_written w w' loser winner x)

-- The list of partial notes stays bounded.
pub length-appended_entries :
    (old : List (Dict Scalar)) (e : Dict Scalar)
    → length (appended_entries old e) ≤ partial_max_entries
unfolding appended_entries
length-appended_entries old e = omega (arith, length-append {0}, length-drop {0})

entries_of-map : (es : List (Dict Scalar)) → entries_of (List.map entry es) ≡ es
unfolding entries_of
entries_of-map [] = refl
entries_of-map (e ∷ es) = ap (λ r. e ∷ r) (entries_of-map es)

-- What a full supersession writes names the winner.
pub superseded_by-full :
    (loser : Payload) (winner_id : String) (detail : Option String) (now_iso : String)
    → field "superseded_by" (update (supersede_payload loser winner_id "full" detail now_iso) loser)
      ≡ text (norm_id winner_id)
unfolding supersede_payload full_payload
superseded_by-full loser winner_id detail now_iso =
    field-update_found "superseded_by" _ loser _ (unfold get in refl)

-- The partial notes that are read after a partial supersession are the last of the old notes and
-- the new one.
pub partials-partial :
    (loser : Payload) (winner_id : String) (detail : Option String) (now_iso : String)
    → partials (update (supersede_payload loser winner_id "partial" detail now_iso) loser)
      ≡ appended_entries (partials loser) (new_entry winner_id (or_empty detail) now_iso)
unfolding supersede_payload partial_payload partials partials_of
partials-partial loser winner_id detail now_iso =
    let new = appended_entries (partials loser) (new_entry winner_id (or_empty detail) now_iso) in
    ap partials_of (
      field-update_found "partially_superseded_by"
        (supersede_payload loser winner_id "partial" detail now_iso) loser
        (items (List.map entry new)) (unfold get in refl))
    ∙ entries_of-map new
