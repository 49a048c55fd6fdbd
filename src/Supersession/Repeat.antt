-- ===== src/Supersession/Repeat.antt =====
-- A supersession that is sent again changes nothing.
use agentic_memory_stack_for.Prelude.{
  String, ◌≡◌, refl, ◌⊎◌, inl, inr, Bool, true, false, ◌||◌, Option, none, some, List, [], ◌∷◌,
  ◌++◌, arith, ◌==◌, eq_iff, Bool-cases, ◌∙◌, eq_refl, any, any-append,
}
use agentic_memory_stack_for.Prelude.Text.{mem, strip}
use agentic_memory_stack_for.Prelude.Text.Laws.{strip_idem}
use agentic_memory_stack_for.Prelude.Dict.{Dict, get, update}
use agentic_memory_stack_for.Payload.{Payload, Scalar, text, field, entry_field, value_text}
use agentic_memory_stack_for.Payload.Laws.{text_or_empty-text, scalar_or_empty-str}
use agentic_memory_stack_for.Supersession.Ids.{norm_id, is_memory_id, norm_id_idem}
use agentic_memory_stack_for.Supersession.Rules.{
  retired, brand, same_user, precheck, is_noop, partials, appended_entries, new_entry, same_entry,
  stripped,
}
use agentic_memory_stack_for.Supersession.Matrix.{IsAdmissible, IsUnclaimed, precheck-none_iff}
use agentic_memory_stack_for.Supersession.Store.{PayloadStore}
use agentic_memory_stack_for.Supersession.Transaction.{
  Line, Body, done, World, supersede_payload, or_empty, read_id, noop_body, run_supersede,
}
use agentic_memory_stack_for.Supersession.Effect.{
  written_keys, field-supersede_payload, supersede-IsWritten,
}
use agentic_memory_stack_for.Supersession.Frame.{
  IsFramed, read_id-found, IsFramed-of_written, superseded_by-full, partials-partial,
}

-- The fields that the matrix reads of a loser besides its supersession.
record IsSameGuarded (p q : Payload) : Type 0 where
  tiers : field "tier" p ≡ field "tier" q
  shown : field "retrievable" p ≡ field "retrievable" q
  stamps : field "retired_at" p ≡ field "retired_at" q
  brands : field "brand" p ≡ field "brand" q
  users : field "user_id" p ≡ field "user_id" q

retired-same : (p q : Payload) → IsSameGuarded p q → retired p ≡ retired q
unfolding retired
retired-same p q h = rw (h.shown, h.stamps) refl

brand-same : (p q : Payload) (s : List String) → IsSameGuarded p q → brand p s ≡ brand q s
unfolding brand
brand-same p q s h = rw h.brands refl

same_user-same : (p q r : Payload) → IsSameGuarded p q → same_user p r ≡ same_user q r
unfolding same_user
same_user-same p q r h = rw h.users refl

-- The matrix lets the same request through for a loser that differs only in its supersession.
IsAdmissible-same :
    (li wi : String) (p q winner : Payload) (scope : String) (detail : Option String)
    (shared : List String) (reason : Option String)
    → IsSameGuarded p q
    → IsUnclaimed wi p scope
    → IsAdmissible li wi q winner scope detail shared reason
    → IsAdmissible li wi p winner scope detail shared reason
IsAdmissible-same li wi p q winner scope detail shared reason h u a = record {
  request = a.request;
  live = record {
    open_tier = rw h.tiers a.live.open_tier;
    loser_live = rw (retired-same p q h) a.live.loser_live;
    winner_live = a.live.winner_live;
    winner_current = a.live.winner_current;
  };
  visible = record {
    same_tenant = rw (same_user-same p q winner h) a.visible.same_tenant;
    reaches = rw (brand-same p q shared h) a.visible.reaches;
  };
  unclaimed = u;
}

noop_full :
    (p : Payload) (winner_id : String) (detail : Option String)
    → field "superseded_by" p ≡ text (norm_id winner_id)
    → is_noop p winner_id "full" detail ≡ true
unfolding is_noop
noop_full p winner_id detail h =
    rw (h, text_or_empty-text, norm_id_idem) (eq_refl (norm_id winner_id))

same_entry-new_entry :
    (winner_id : String) (detail : Option String) (now_iso : String)
    → same_entry winner_id (stripped detail) (new_entry winner_id (or_empty detail) now_iso) ≡ true
unfolding same_entry new_entry entry_field get stripped
same_entry-new_entry winner_id none now_iso =
    simp (scalar_or_empty-str, norm_id_idem, eq_refl) (unfold strip in refl)
same_entry-new_entry winner_id (some d) now_iso =
    simp (scalar_or_empty-str, norm_id_idem, strip_idem, eq_refl) refl

or_true : (c : Bool) → (c || (true || false)) ≡ true
or_true true = refl
or_true false = refl

any-last :
    (p : Dict Scalar → Bool) (old : List (Dict Scalar)) (e : Dict Scalar)
    → p e ≡ true
    → any p (old ++ e ∷ []) ≡ true
unfolding any
any-last p old e h = rw (any-append p old (e ∷ []), h) (or_true (any p old))

noop_partial :
    (p loser : Payload) (winner_id : String) (detail : Option String) (now_iso : String)
    → partials p ≡ appended_entries (partials loser) (new_entry winner_id (or_empty detail) now_iso)
    → is_noop p winner_id "partial" detail ≡ true
unfolding is_noop appended_entries
noop_partial p loser winner_id detail now_iso h = rw h (
    any-last _ _ (new_entry winner_id (or_empty detail) now_iso)
      (same_entry-new_entry winner_id detail now_iso))

unclaimed_full :
    (p : Payload) (winner_id : String)
    → field "superseded_by" p ≡ text (norm_id winner_id)
    → IsUnclaimed winner_id p "full"
unfolding value_text
unclaimed_full p winner_id h = record {
  no_other = inr (rw (h, norm_id_idem) refl);
  still_shown = λ e. ground (arith, eq_iff "full" "partial");
}

-- The record after the first call passes the matrix again and reads as a repetition.
again :
    (li wi scope : String) (loser winner : Payload) (detail : Option String) (shared : List String)
    (reason : Option String) (now_iso : String)
    → (scope ≡ "full") ⊎ (scope ≡ "partial")
    → IsAdmissible li wi loser winner scope detail shared reason
    → let after = update (supersede_payload loser wi scope detail now_iso) loser in
      IsUnclaimed wi after scope × (is_noop after wi scope detail ≡ true)
unfolding mem
again li wi scope loser winner detail shared reason now_iso (inl e) a =
    let named = superseded_by-full loser wi detail now_iso in
    rw e (unclaimed_full _ wi named, noop_full _ wi detail named)
again li wi scope loser winner detail shared reason now_iso (inr e) a =
    let shown = a.unclaimed.still_shown e in
    rw e (
      record {
        no_other = inl (rw (partial_kept "superseded_by" refl) shown);
        still_shown = λ _. rw (partial_kept "superseded_by" refl) shown;
      },
      noop_partial _ loser wi detail now_iso (partials-partial loser wi detail now_iso),
    )
  where
    partial_kept :
        (k : String)
        → mem k (written_keys "partial") ≡ false
        → field k (update (supersede_payload loser wi "partial" detail now_iso) loser)
          ≡ field k loser
    partial_kept k h = field-supersede_payload loser wi "partial" detail now_iso k h

module _ (b : PayloadStore) (accepts : Line → Bool) (mid winner_id scope : String)
    (detail reason source : Option String) (shared_brands : List String) (now_iso : String) where
  open b use {read}

  -- Reading by a valid id.
  read_id-of_read :
      (id : String) (w : World b accepts) (p : Payload)
      → is_memory_id id ≡ true
      → read (norm_id id) w.store ≡ some (some p)
      → read_id b accepts id w ≡ some (some p)
  unfolding read_id
  read_id-of_read id w p v h = rw (v, h) refl

  unwritten :
      (k : String)
      → mem k (written_keys "full") ≡ false
      → mem k (written_keys "partial") ≡ false
      → mem k (written_keys scope) ≡ false
  unwritten k f p = elim (Bool-cases (scope == "full")) [ inl e ↦ rw e f | inr e ↦ rw e p ]

  same_guarded :
      (w w' : World b accepts) (loser after : Payload)
      → IsFramed b accepts mid winner_id scope detail reason source shared_brands now_iso w w' loser
          after
      → IsSameGuarded after loser
  unfolding mem
  same_guarded w w' loser after f = record {
    tiers = f.others_kept "tier" (unwritten "tier" refl refl);
    shown = f.others_kept "retrievable" (unwritten "retrievable" refl refl);
    stamps = f.others_kept "retired_at" (unwritten "retired_at" refl refl);
    brands = f.others_kept "brand" (unwritten "brand" refl refl);
    users = f.others_kept "user_id" (unwritten "user_id" refl refl);
  }

  repeated :
      (later_iso : String) (w : World b accepts) (loser winner : Payload)
      → read_id b accepts mid w ≡ some (some loser)
      → read_id b accepts winner_id w ≡ some (some winner)
      → precheck mid winner_id (some loser) (some winner) scope detail shared_brands reason ≡ none
      → is_noop loser winner_id scope detail ≡ true
      → run_supersede b accepts mid winner_id scope detail reason source shared_brands later_iso w
        ≡ (
          done (
              noop_body b accepts mid winner_id scope detail reason source shared_brands later_iso
                loser),
          w,
        )
  unfolding run_supersede
  repeated later_iso w loser winner l r p n = rw (l, r) (rw p (rw n refl))

  -- A supersession that is done and no no-op is a no-op when it is sent again, at whatever time:
  -- it passes the matrix and writes nothing to the store or to the ledger.
  pub supersede_repeat :
      (later_iso : String) (body : Body) (w w' : World b accepts)
      → run_supersede b accepts mid winner_id scope detail reason source shared_brands now_iso w
        ≡ (done body, w')
      → body.noop ≡ false
      → (again' : Body) × (again'.noop ≡ true)
        × (run_supersede b accepts mid winner_id scope detail reason source shared_brands later_iso
              w'
            ≡ (done again', w'))
  supersede_repeat later_iso body w w' h f =
      let (loser, winner, x) =
        supersede-IsWritten b accepts mid winner_id scope detail reason source shared_brands now_iso
          body w w' h f in
      let fr =
        IsFramed-of_written b accepts mid winner_id scope detail reason source shared_brands now_iso
          w w' loser winner x in
      let after = update (supersede_payload loser winner_id scope detail now_iso) loser in
      let a =
        (precheck-none_iff mid winner_id loser winner scope detail shared_brands reason).0
          x.passed in
      let (u, n) =
        again mid winner_id scope loser winner detail shared_brands reason now_iso
          a.request.scope_known a in
      let a' =
        IsAdmissible-same mid winner_id after loser winner scope detail shared_brands reason
          (same_guarded w w' loser after fr) u a in
      (
        _,
        refl,
        repeated later_iso w' after winner
            (read_id-of_read mid w' after a.request.loser_is_id fr.is_now)
            (read_id-of_read winner_id w' winner a.request.winner_is_id (
              fr.elsewhere (norm_id winner_id) a.request.distinct
              ∙ read_id-found b accepts mid winner_id scope detail reason source shared_brands
                  now_iso winner_id w winner x.winner_read))
            ((precheck-none_iff mid winner_id after winner scope detail shared_brands reason).1 a')
            n,
      )
