-- ===== src/Supersession/Store.antt =====
-- The store and the ledger that mem0-server/supersession.py is handed: the vector store's payload
-- operations and the append to the audit file are not in that module. A call that raises has
-- written nothing; a write that returns is what later reads show.
use agentic_memory_stack_for.Prelude.{
  String, ◌≡◌, Option, none, some, List, [], ◌∷◌, arith, ◌==◌, eq_iff, if◌then◌else◌,
}
use agentic_memory_stack_for.Prelude.Dict.{Dict, get, update, without}
use agentic_memory_stack_for.Payload.{Payload}

module _ {ℓ κ} {A : Type ℓ} {B : Type κ} where
  abbrev pub map_option : (A → B) → Option A → Option B
  map_option f none = none
  map_option f (some a) = some (f a)

-- What `read` returns: `none` when it raises, `some none` for a missing record.
abbrev pub Read : Type 0
Read = Option (Option Payload)

abbrev pub changed : (Payload → Payload) → Read → Read
changed f r = map_option (map_option f) r

pub record PayloadStore : Type 1 where
  pub State : Type 0
  pub read : String → State → Read
  -- `none` when the call raises
  pub set_payload : String → Payload → State → Option State
  pub delete_keys : String → List String → State → Option State
  pub read-set_payload :
      (i j : String) (new : Payload) (s s' : State)
      → set_payload i new s ≡ some s'
      → read j s' ≡ (if i == j then changed (update new) (read i s) else read j s)
  pub read-delete_keys :
      (i j : String) (ks : List String) (s s' : State)
      → delete_keys i ks s ≡ some s'
      → read j s' ≡ (if i == j then changed (without ks) (read i s) else read j s)

-- A store in memory, which raises nothing.
abbrev pub Points : Type 0
Points = Dict Payload

unfoldable pub change : String → (Payload → Payload) → Points → Points
change i f [] = []
change i f ((j, p) ∷ ps) = if j == i then (j, f p) ∷ ps else (j, p) ∷ change i f ps

get-change :
    (i j : String) (f : Payload → Payload) (ps : Points)
    → get j (change i f ps) ≡ (if i == j then map_option f (get i ps) else get j ps)
unfolding get change
get-change i j f [] = ground arith
get-change i j f ((k, p) ∷ ps) =
    ground (arith, get-change i j f ps, eq_iff i j, eq_iff k i, eq_iff k j)

pub memory_read-set :
    (i j : String) (f : Payload → Payload) (s s' : Points)
    → some (change i f s) ≡ some s'
    → some (get j s') ≡ (if i == j then changed f (some (get i s)) else some (get j s))
memory_read-set i j f s s' h = ground (arith, get-change i j f s)

abbrev pub memory_store : PayloadStore
memory_store = record {
  State = Points;
  read = λ i s. some (get i s);
  set_payload = λ i new s. some (change i (update new) s);
  delete_keys = λ i ks s. some (change i (without ks) s);
  read-set_payload = λ i j new s s' h. memory_read-set i j (update new) s s' h;
  read-delete_keys = λ i j ks s s' h. memory_read-set i j (without ks) s s' h;
}
