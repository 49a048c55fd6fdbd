-- ===== src/Episodic/Store.antt =====
-- The tables of sessions, episodes and links, and the operations on them. SQLite's clock enters as
-- text; `between` is the distance in microseconds of two times of day that Python parses, `none`
-- where parsing or subtraction raises.
use agentic_memory_stack_for.Prelude.{
  ℕ, zero, suc, String, Bool, true, false, not, ◌&&◌, Option, none, some, List, [], ◌∷◌, ◌++◌, ◌==◌,
  ltb, leb, eqb, if◌then◌else◌, map, any, or_else, take,
}
use agentic_memory_stack_for.Prelude.Text.{is_empty}
use agentic_memory_stack_for.Episodic.Words.{Words}
use agentic_memory_stack_for.Episodic.Turn.{is_non_human_turn}
use agentic_memory_stack_for.Episodic.Summary.{append_running_summary, running_summary_cap}

pub record Session : Type 0 where
  pub session_id : String
  pub started_at : String
  pub ended_at : Option String
  pub transcript_path : Option String
  pub message_count : ℕ
  pub brand : Option String
  pub workspace : Option String
  pub project : Option String

pub data State : Type 0 where
  in_progress complete abandoned : State

-- The message bounds and the three JSON columns, which the modelled code only stores.
pub record Extra : Type 0 where
  pub source_msg_start : Option ℕ
  pub source_msg_end : Option ℕ
  pub open_questions : Option String
  pub advanced_goals : Option String
  pub blocked_goals : Option String

abbrev pub no_extra : Extra
no_extra = record {
  source_msg_start = none;
  source_msg_end = none;
  open_questions = none;
  advanced_goals = none;
  blocked_goals = none;
}

pub record Episode : Type 0 where
  pub id : ℕ
  pub session_id : String
  pub started_at : String
  pub ended_at : String
  pub goal_text : Option Words
  pub summary_text : Option Words
  pub extra : Extra
  pub state : State

pub record Store : Type 0 where
  pub sessions : List Session
  pub episodes : List Episode
  pub next_id : ℕ

-- What a caller says of a session.
pub record About : Type 0 where
  pub transcript_path : Option String
  pub brand : Option String
  pub workspace : Option String
  pub project : Option String

unfoldable new_session : String → String → About → Session
new_session sid started_at a = record {
  session_id = sid;
  started_at = started_at;
  ended_at = none;
  transcript_path = a.transcript_path;
  message_count = 0;
  brand = a.brand;
  workspace = a.workspace;
  project = a.project;
}

-- `ON CONFLICT(session_id) DO UPDATE`
unfoldable enrich : About → Session → Session
enrich a s = record s {
  transcript_path = or_else a.transcript_path s.transcript_path;
  brand = or_else a.brand s.brand;
  workspace = or_else a.workspace s.workspace;
  project = or_else a.project s.project;
}

unfoldable pub has_session : String → List Session → Bool
unfolding any
has_session sid sessions = any (λ x. x.session_id == sid) sessions

unfoldable pub create_session : String → About → String → Store → Store
unfolding new_session enrich has_session
create_session sid about started_at s = record s {
  sessions =
      if has_session sid s.sessions
      then map (λ x. if x.session_id == sid then enrich about x else x) s.sessions
      else s.sessions ++ (new_session sid started_at about ∷ []);
}

unfoldable pub set_message_count : String → (ℕ → ℕ) → Store → Store
set_message_count sid f s = record s {
  sessions =
      map (λ x. if x.session_id == sid then record x { message_count = f x.message_count } else x)
        s.sessions;
}

unfoldable pub end_session : String → String → ℕ → Store → Store
end_session sid ended_at message_count s = record s {
  sessions =
      map
        (λ x.
          if x.session_id == sid
          then record x { ended_at = some ended_at; message_count = message_count }
          else x)
        s.sessions;
}

-- The row of `INSERT INTO episodes`; the id is the last one plus one.
unfoldable pub insert_episode :
    String → String → String → Option Words → Option Words → Extra → State → Store → Store × ℕ
insert_episode sid started_at ended_at goal summary extra state s =
    let e : Episode = record {
      id = s.next_id;
      session_id = sid;
      started_at = started_at;
      ended_at = ended_at;
      goal_text = goal;
      summary_text = summary;
      extra = extra;
      state = state;
    } in
    (record s { episodes = s.episodes ++ (e ∷ []); next_id = suc s.next_id }, s.next_id)

-- The foreign key: an episode of no session is an IntegrityError, which is `none`.
unfoldable pub add_episode :
    String
    → String
    → String
    → Option Words
    → Option Words
    → Extra
    → State
    → Store
    → Option (Store × ℕ)
unfolding has_session insert_episode
add_episode sid started_at ended_at goal summary extra state s =
    if has_session sid s.sessions
    then some (insert_episode sid started_at ended_at goal summary extra state s)
    else none

abbrev pub is_in_progress : State → Bool
is_in_progress in_progress = true
is_in_progress s = false

abbrev pub is_complete : State → Bool
is_complete complete = true
is_complete s = false

unfoldable pub is_open : String → Episode → Bool
is_open sid e = (e.session_id == sid) && is_in_progress e.state

unfoldable pub is_done : String → Episode → Bool
is_done sid e = (e.session_id == sid) && is_complete e.state

abbrev pub later : Option Episode → Option Episode → Option Episode
later none o = o
later (some e) none = some e
later (some e) (some f) = if ltb e.id f.id then some f else some e

-- `ORDER BY id DESC LIMIT 1` among the rows that pass.
unfoldable pub latest : (Episode → Bool) → List Episode → Option Episode
latest p [] = none
latest p (e ∷ es) = let rest = latest p es in if p e then later (some e) rest else rest

-- `UPDATE episodes SET … WHERE id = ?`
unfoldable pub update_episode : ℕ → (Episode → Episode) → Store → Store
update_episode id f s = record s { episodes = map (λ e. if eqb e.id id then f e else e) s.episodes }

pub data Action : Type 0 where
  created updated : Action

abbrev pub preview : ℕ → Option Words → Option Words
preview n none = none
preview n (some []) = none
preview n (some (c ∷ cs)) = some (take n (c ∷ cs))

abbrev pub or_nothing : Option Words → Words
or_nothing none = []
or_nothing (some w) = w

-- A turn that nobody typed leaves no text.
unfoldable pub typed : Option Words → Option Words
unfolding is_non_human_turn
typed prompt = if is_non_human_turn prompt then none else prompt

-- The episode that was found is the row that the SELECT read. The session has a row by now, so the
-- foreign key holds.
abbrev pub checkpoint : String → String → Option Words → Option Episode → Store → Store × ℕ × Action
checkpoint now sid prompt (some row) s =
    let t =
      update_episode row.id
        (λ e. record e {
          ended_at = now;
          summary_text =
              some
                (append_running_summary row.summary_text (preview 200 prompt) running_summary_cap);
        })
        s in
    (set_message_count sid suc t, row.id, updated)
checkpoint now sid prompt none s =
    let (t, id) =
      insert_episode sid now now (some []) (some (or_nothing (preview 300 prompt))) no_extra
        in_progress s in
    (set_message_count sid suc t, id, created)

unfoldable pub upsert_in_progress_episode :
    String → String → About → Option Words → Store → Store × ℕ × Action
unfolding typed create_session latest is_open update_episode set_message_count insert_episode
upsert_in_progress_episode now sid about prompt s =
    let t = create_session sid about now s in
    checkpoint now sid (typed prompt) (latest (is_open sid) t.episodes) t

-- scripts/wsl/episodic-reconcile.py, `abandon_ids`: `stale` compares a time with the cutoff.
unfoldable pub abandon_ids : (String → Bool) → List ℕ → Store → Store
unfolding any
abandon_ids stale ids s = record s {
  episodes =
      map
        (λ e.
          if is_in_progress e.state && stale e.ended_at && any (eqb e.id) ids
          then record e { state = abandoned }
          else e)
        s.episodes;
}

module _ (between : String → String → Option ℕ) where
  abbrev pub within : Option ℕ → Bool
  within none = false
  within (some us) = leb us 10000000

  unfoldable pub is_duplicate : String → Episode → Bool
  is_duplicate ended_at e = not (is_empty e.ended_at) && within (between e.ended_at ended_at)

  abbrev pub count_if_any : String → ℕ → Store → Store
  count_if_any sid zero s = s
  count_if_any sid (suc n) s = set_message_count sid (λ _. suc n) s

  abbrev pub finalize_insert : String → Words → Words → String → Store → Option (Store × ℕ)
  finalize_insert sid goal summary ended_at s =
      add_episode sid ended_at ended_at (some goal) (some summary) no_extra complete s

  -- No checkpoint: a recent complete row is written again.
  abbrev pub finalize_again :
      String → Words → Words → String → Option Episode → Store → Option (Store × ℕ)
  finalize_again sid goal summary ended_at none s = finalize_insert sid goal summary ended_at s
  finalize_again sid goal summary ended_at (some recent) s =
      if is_duplicate ended_at recent
      then some (
        update_episode recent.id
            (λ e. record e {
              goal_text = some goal;
              summary_text = some summary;
              ended_at = ended_at;
            })
            s,
        recent.id,
      )
      else finalize_insert sid goal summary ended_at s

  abbrev pub finalize :
      String → Words → Words → String → Option Episode → Store → Option (Store × ℕ)
  finalize sid goal summary ended_at (some row) s = some (
    update_episode row.id
        (λ e. record e {
          state = complete;
          goal_text = some goal;
          summary_text = some summary;
          ended_at = ended_at;
        })
        s,
    row.id,
  )
  finalize sid goal summary ended_at none s =
      finalize_again sid goal summary ended_at (latest (is_done sid) s.episodes) s

  abbrev pub counted : String → ℕ → Option (Store × ℕ) → Option (Store × ℕ)
  counted sid message_count none = none
  counted sid message_count (some (t, id)) = some (count_if_any sid message_count t, id)

  -- An error leaves the store as it was.
  unfoldable pub finalize_episode : String → Words → Words → String → ℕ → Store → Option (Store × ℕ)
  unfolding latest is_open is_done is_duplicate update_episode add_episode set_message_count
  finalize_episode sid goal summary ended_at message_count s =
      counted sid message_count
        (finalize sid goal summary ended_at (latest (is_open sid) s.episodes) s)
