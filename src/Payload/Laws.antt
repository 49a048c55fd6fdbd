-- ===== src/Payload/Laws.antt =====
-- Reading a payload after a write.
use agentic_memory_stack_for.Prelude.{
  String, ◌≡◌, refl, none, some, List, arith, ◌==◌, if◌then◌else◌,
}
use agentic_memory_stack_for.Prelude.Text.{mem}
use agentic_memory_stack_for.Prelude.Dict.{
  get, put, update, without, get-put, get-update, get-without,
}
use agentic_memory_stack_for.Payload.{
  str, text, text_or_empty, value_text, scalar_or_empty, scalar_text, Payload, Value, scalar, null,
  field,
}

pub field-put :
    (k j : String) (v : Value) (p : Payload)
    → field j (put k v p) ≡ (if k == j then v else field j p)
unfolding field
field-put k j v p = ground (arith, get-put k j v p)

pub field-update_missing :
    (j : String) (new p : Payload) → get j new ≡ none → field j (update new p) ≡ field j p
unfolding field
field-update_missing j new p h = ground (arith, get-update j new p)

pub field-update_found :
    (j : String) (new p : Payload) (v : Value) → get j new ≡ some v → field j (update new p) ≡ v
unfolding field
field-update_found j new p v h = ground (arith, get-update j new p)

pub field-without :
    (j : String) (ks : List String) (p : Payload)
    → field j (without ks p) ≡ (if mem j ks then scalar null else field j p)
unfolding field
field-without j ks p = ground (arith, get-without j ks p)

-- `str(v or "")` of a text is the text.
pub text_or_empty-text : (s : String) → text_or_empty (text s) ≡ s
unfolding text_or_empty value_text
text_or_empty-text String.[] = refl
text_or_empty-text (String.◌∷◌ c s) = refl

pub scalar_or_empty-str : (s : String) → scalar_or_empty (str s) ≡ s
unfolding scalar_or_empty scalar_text
scalar_or_empty-str String.[] = refl
scalar_or_empty-str (String.◌∷◌ c s) = refl
