-- ===== src/Episodic/Steps.antt =====
-- Every statement that writes the episodes' states: checkpoints, finalised episodes, the plain insert of
-- a complete one, and the sweep of stale checkpoints, in any order. A statement
-- that raises is no step.
use agentic_memory_stack_for.Prelude.{ℕ, String, ◌≡◌, Bool, Option, some, List, []}
use agentic_memory_stack_for.Episodic.Words.{Words}
use agentic_memory_stack_for.Episodic.Store.{
  Store, About, Extra, complete, create_session, end_session, add_episode,
  upsert_in_progress_episode, finalize_episode, abandon_ids,
}

abbrev pub Between : Type 0
Between = String → String → Option ℕ

pub data Step (between : Between) : Store → Store → Type 0 where
  opened :
      (s : Store) (sid : String) (a : About) (now : String)
      → Step between s (create_session sid a now s)
  ended : (s : Store) (sid at : String) (count : ℕ) → Step between s (end_session sid at count s)
  checkpointed :
      (s : Store) (now sid : String) (a : About) (prompt : Option Words)
      → Step between s (upsert_in_progress_episode now sid a prompt s).0
  finalized :
      (s t : Store) (sid : String) (goal summary : Words) (at : String) (count id : ℕ)
      → finalize_episode between sid goal summary at count s ≡ some (t, id)
      → Step between s t
  added :
      (s t : Store) (sid from at : String) (goal summary : Option Words) (extra : Extra) (id : ℕ)
      → add_episode sid from at goal summary extra complete s ≡ some (t, id)
      → Step between s t
  swept :
      (s : Store) (stale : String → Bool) (ids : List ℕ) → Step between s (abandon_ids stale ids s)

pub data Run (between : Between) : Store → Store → Type 0 where
  stop : (s : Store) → Run between s s
  step : (s t u : Store) → Run between s t → Step between t u → Run between s u

abbrev pub empty : Store
empty = record { sessions = []; episodes = []; next_id = 1 }
