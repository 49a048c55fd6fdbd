-- ===== src/Supersession/Transaction.antt =====
-- mem0-server/supersession.py: the two write transactions over a store and a ledger.
use agentic_memory_stack_for.Prelude.{
  String, Bool, true, false, Option, none, some, List, [], ◌∷◌, ◌++◌, ◌==◌, if◌then◌else◌,
}
use agentic_memory_stack_for.Prelude.Text.{is_empty}
use agentic_memory_stack_for.Payload.{Payload, Value, text, truthy, field}
use agentic_memory_stack_for.Supersession.Ids.{is_memory_id, norm_id, clean_source}
use agentic_memory_stack_for.Supersession.Rules.{
  Refusal, endpoint_actor, tier, stripped, precheck, is_noop, full_payload, partial_payload,
  clear_keys, clear_precheck, has_supersession, is_set,
}
use agentic_memory_stack_for.Supersession.Store.{Read, PayloadStore}

-- A line of the audit ledger.
pub record Line : Type 0 where
  pub event : String
  pub status : Option String
  pub memory_id : String
  pub winner_id : Option String
  pub scope : String
  pub detail : Option String
  pub cleared : Payload
  pub actor : String
  pub source : Option String
  pub reason : Option String
  pub prior_tier : Value
  pub transport : String

-- The response body, with the completion line when something was written.
pub record Body : Type 0 where
  pub memory_id : String
  pub winner_id : Option String
  pub scope : String
  pub noop : Bool
  pub hidden : Bool
  pub completion : Option Line

pub data Outcome : Type 0 where
  refused : Refusal → Outcome
  ledger_unavailable : Outcome
  store_raised : Outcome
  done : Body → Outcome

-- `(s or "").strip() or None`
unfoldable pub stripped_or_none : Option String → Option String
unfolding stripped
stripped_or_none o = let s = stripped o in if is_empty s then none else some s

unfoldable pub supersede_line :
    String → String → String → Option String → Option String → Option String → Payload → Line
unfolding stripped_or_none
supersede_line mid winner_id scope detail reason source loser = record {
  event = "supersede";
  status = none;
  memory_id = mid;
  winner_id = some (norm_id winner_id);
  scope = scope;
  detail = stripped_or_none detail;
  cleared = [];
  actor = endpoint_actor;
  source = clean_source source;
  reason = stripped_or_none reason;
  prior_tier = tier loser;
  transport = "rest-api";
}

-- `{k: loser.get(k) for k in keys if loser.get(k) not in (None, "", [])}`
unfoldable pub cleared_fields : Payload → List String → Payload
cleared_fields loser [] = []
cleared_fields loser (k ∷ ks) =
    let rest = cleared_fields loser ks in
    if is_set (field k loser) then (k, field k loser) ∷ rest else rest

unfoldable pub unsupersede_line : String → String → Option String → List String → Payload → Line
unfolding stripped_or_none cleared_fields
unsupersede_line mid scope reason keys loser = record {
  event = "unsupersede";
  status = none;
  memory_id = mid;
  winner_id = none;
  scope = scope;
  detail = none;
  cleared = cleared_fields loser keys;
  actor = endpoint_actor;
  source = none;
  reason = stripped_or_none reason;
  prior_tier = tier loser;
  transport = "rest-api";
}

unfoldable pub as_intent : String → Line → Line
as_intent event line = record line { event = event; status = some "intent" }

abbrev pub or_empty : Option String → String
or_empty none = ""
or_empty (some s) = s

-- What one supersession writes into the loser's payload.
unfoldable pub supersede_payload : Payload → String → String → Option String → String → Payload
supersede_payload loser winner_id scope detail now_iso =
    ("updated_at", text now_iso)
    ∷ (if scope == "full"
        then full_payload winner_id now_iso
        else partial_payload loser winner_id (or_empty detail) now_iso)

module _ (b : PayloadStore) (accepts : Line → Bool) where
  open b use {State, read, set_payload, delete_keys}

  pub record World : Type 0 where
    pub store : State
    pub ledger : List Line

  -- The intent line, then the write; a ledger that raises stops the write.
  unfoldable pub commit_write : Option State → Body → World → Outcome × World
  commit_write none body w = (store_raised, w)
  commit_write (some s) body w = (done body, record w { store = s })

  unfoldable pub commit : Line → (State → Option State) → Body → World → Outcome × World
  unfolding commit_write
  commit intent write body w =
      if accepts intent
      then commit_write (write w.store) body (record w { ledger = w.ledger ++ intent ∷ [] })
      else (ledger_unavailable, w)

  -- `store.read(_norm_id(id)) if is_memory_id(id) else None`
  unfoldable pub read_id : String → World → Read
  read_id id w = if is_memory_id id then read (norm_id id) w.store else some none

  module _ (mid winner_id scope : String) (detail reason source : Option String)
      (shared_brands : List String) (now_iso : String) where
    abbrev pub line_of : Payload → Line
    line_of loser = supersede_line mid winner_id scope detail reason source loser

    abbrev pub done_body : Payload → Body
    done_body loser = record {
      memory_id = mid;
      winner_id = some (norm_id winner_id);
      scope = scope;
      noop = false;
      hidden = scope == "full";
      completion = some (line_of loser);
    }

    unfoldable pub write_supersede : Payload → World → Outcome × World
    unfolding commit
    write_supersede loser w =
        commit (as_intent "supersede-intent" (line_of loser))
          (set_payload (norm_id mid) (supersede_payload loser winner_id scope detail now_iso))
          (done_body loser) w

    abbrev pub noop_body : Payload → Body
    noop_body loser = record {
      memory_id = mid;
      winner_id = some (norm_id winner_id);
      scope = scope;
      noop = true;
      hidden = truthy (field "superseded_by" loser);
      completion = none;
    }

    unfoldable pub unless_noop : Bool → Payload → World → Outcome × World
    unfolding write_supersede
    unless_noop true loser w = (done (noop_body loser), w)
    unless_noop false loser w = write_supersede loser w

    -- What follows the matrix. It has refused a record that is missing.
    unfoldable pub decide : Option Refusal → Option Payload → World → Outcome × World
    unfolding unless_noop
    decide (some r) loser w = (refused r, w)
    decide none none w = (store_raised, w)
    decide none (some loser) w = unless_noop (is_noop loser winner_id scope detail) loser w

    unfoldable pub on_reads : Read → Read → World → Outcome × World
    unfolding decide
    on_reads none winner w = (store_raised, w)
    on_reads (some loser) none w = (store_raised, w)
    on_reads (some loser) (some winner) w =
        decide (precheck mid winner_id loser winner scope detail shared_brands reason) loser w

    unfoldable pub run_supersede : World → Outcome × World
    unfolding on_reads
    run_supersede w = on_reads (read_id mid w) (read_id winner_id w) w

  module _ (mid scope : String) (reason : Option String) (now_iso : String) where
    abbrev pub unsupersede_body : Bool → Option Line → Body
    unsupersede_body noop completion = record {
      memory_id = mid;
      winner_id = none;
      scope = scope;
      noop = noop;
      hidden = false;
      completion = completion;
    }

    -- `store.delete_keys`, then the new `updated_at`. A raise of the second leaves the first done.
    unfoldable pub stamp_cleared : Option State → Body → World → Outcome × World
    unfolding commit_write
    stamp_cleared none body w = (store_raised, w)
    stamp_cleared (some s) body w =
        commit_write (set_payload (norm_id mid) (("updated_at", text now_iso) ∷ []) s) body
          (record w { store = s })

    unfoldable pub write_unsupersede : List String → Payload → World → Outcome × World
    unfolding stamp_cleared
    write_unsupersede keys loser w =
        let line = unsupersede_line mid scope reason keys loser in
        let intent = as_intent "unsupersede-intent" line in
        if accepts intent
        then stamp_cleared (delete_keys (norm_id mid) keys w.store)
            (unsupersede_body false (some line)) (record w { ledger = w.ledger ++ intent ∷ [] })
        else (ledger_unavailable, w)

    unfoldable pub clear_if_set : Bool → List String → Payload → World → Outcome × World
    unfolding write_unsupersede
    clear_if_set false keys loser w = (done (unsupersede_body true none), w)
    clear_if_set true keys loser w = write_unsupersede keys loser w

    -- The precheck has refused a missing record and a scope with no keys.
    unfoldable pub clear :
        Option Refusal → Option Payload → Option (List String) → World → Outcome × World
    unfolding clear_if_set
    clear (some r) loser keys w = (refused r, w)
    clear none none keys w = (store_raised, w)
    clear none (some loser) none w = (store_raised, w)
    clear none (some loser) (some keys) w = clear_if_set (has_supersession loser keys) keys loser w

    unfoldable pub on_read : Read → World → Outcome × World
    unfolding clear
    on_read none w = (store_raised, w)
    on_read (some loser) w =
        clear (clear_precheck mid loser scope reason) loser (clear_keys scope) w

    unfoldable pub run_unsupersede : World → Outcome × World
    unfolding on_read
    run_unsupersede w =
        if is_memory_id mid
        then on_read (read (norm_id mid) w.store) w
        else (refused (record { status = 400; code = "bad-id" }), w)
