-- ===== src/Payload.antt =====
-- The payload of a memory record: a Python dict of JSON values, as every server module reads it
-- with `payload.get(key)`. A number is a natural number: the modelled code reads no other. A list is
-- hashable here, where Python raises TypeError on `[...] in frozenset(...)`: no tier is a list.
pub mod Laws
use Prim.Native.Nat.{◌/◌, ◌%◌}
use Prim.Native.Char.{Char}
use Prim.Native.String.{◌++◌}
use mathlib.Core.List
use agentic_memory_stack_for.Prelude.{
  ℕ, zero, suc, String, Bool, true, false, not, ◌&&◌, Option, none, some, List, [], ◌∷◌, ◌==◌, eqb,
  if◌then◌else◌,
}
use agentic_memory_stack_for.Prelude.Text.{is_empty, mem}
use agentic_memory_stack_for.Prelude.Dict.{Dict, get}

pub data Scalar : Type 0 where
  null : Scalar
  bool : Bool → Scalar
  num : ℕ → Scalar
  str : String → Scalar

-- An element of a list: a scalar or an object, such as one partial supersession.
pub data Item : Type 0 where
  atom : Scalar → Item
  entry : Dict Scalar → Item

pub data Value : Type 0 where
  scalar : Scalar → Value
  items : List Item → Value

abbrev pub Payload : Type 0
Payload = Dict Value

-- A text value.
abbrev pub text : String → Value
text s = scalar (str s)

-- `bool(v)`
abbrev pub scalar_truthy : Scalar → Bool
scalar_truthy null = false
scalar_truthy (bool b) = b
scalar_truthy (num n) = not (eqb n 0)
scalar_truthy (str s) = not (is_empty s)

abbrev pub truthy : Value → Bool
truthy (scalar s) = scalar_truthy s
truthy (items []) = false
truthy (items (x ∷ xs)) = true

abbrev digit_at : ℕ → String → String
digit_at n String.[] = ""
digit_at zero (String.◌∷◌ c s) = String.◌∷◌ c ""
digit_at (suc n) (String.◌∷◌ c s) = digit_at n s

-- The digits of `n`, with more fuel than digits.
decimal_go : ℕ → ℕ → String → String
decimal_go zero n acc = acc
decimal_go (suc f) n acc =
    let rest = decimal_go f (n / 10) (digit_at (n % 10) "0123456789" ++ acc) in
    if eqb n 0 then acc else rest

unfoldable pub decimal : ℕ → String
unfolding decimal_go
decimal n = if eqb n 0 then "0" else decimal_go (suc n) n ""

-- `str(v)` of a scalar.
unfoldable pub scalar_text : Scalar → String
scalar_text null = "None"
scalar_text (bool true) = "True"
scalar_text (bool false) = "False"
scalar_text (num n) = decimal n
scalar_text (str s) = s

-- `repr(v)`: quotes inside a text are not escaped.
unfoldable pub scalar_repr : Scalar → String
scalar_repr (str s) = "'" ++ s ++ "'"
scalar_repr v = scalar_text v

unfoldable pub join : String → List String → String
join sep [] = ""
join sep (x ∷ []) = x
join sep (x ∷ y ∷ xs) = x ++ sep ++ join sep (y ∷ xs)

unfoldable pub item_repr : Item → String
item_repr (atom v) = scalar_repr v
item_repr (entry d) =
    "{"
    ++ join ", " (List.map (λ (e : String × Scalar). "'" ++ e.0 ++ "': " ++ scalar_repr e.1) d)
    ++ "}"

unfoldable pub value_text : Value → String
unfolding scalar_text
value_text (scalar s) = scalar_text s
value_text (items xs) = "[" ++ join ", " (List.map item_repr xs) ++ "]"

-- `payload.get(key)`: `None` for a key that is missing.
unfoldable pub field : String → Payload → Value
unfolding get
field k p = elim (get k p) [ none ↦ scalar null | some v ↦ v ]

-- `entry.get(key)`
unfoldable pub entry_field : String → Dict Scalar → Scalar
unfolding get
entry_field k e = elim (get k e) [ none ↦ null | some v ↦ v ]

-- `str(v or "")`
unfoldable pub text_or_empty : Value → String
unfolding value_text
text_or_empty v = if truthy v then value_text v else ""

unfoldable pub scalar_or_empty : Scalar → String
unfolding scalar_text
scalar_or_empty s = if scalar_truthy s then scalar_text s else ""

-- `v == "…"` and `v in {"…", …}`
abbrev pub is_text : Value → String → Bool
is_text (scalar (str s)) t = s == t
is_text v t = false

abbrev pub in_texts : Value → List String → Bool
in_texts (scalar (str s)) ts = mem s ts
in_texts v ts = false

abbrev pub is_null : Value → Bool
is_null (scalar null) = true
is_null v = false

-- `v is False`
abbrev pub is_false : Value → Bool
is_false (scalar (bool b)) = not b
is_false v = false
