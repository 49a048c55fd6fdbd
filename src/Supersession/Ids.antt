-- ===== src/Supersession/Ids.antt =====
-- mem0-server/supersession.py: memory ids and the caller's audit label.
use Prim.Native.Nat.{ℕ, zero, suc}
use Prim.Native.Char.{Char, code}
use agentic_memory_stack_for.Prelude.{
  String, Bool, true, false, ◌&&◌, ◌||◌, Option, none, some, leb, eqb, if◌then◌else◌, ◌≡◌, refl, ap,
  ◌∙◌,
}
use agentic_memory_stack_for.Prelude.Text.{is_empty, strip, lstrip, rstrip, lower, take}
use agentic_memory_stack_for.Prelude.Text.Laws.{lower_idem, strip_idem, strip-lower}

is_hex : Char → Bool
is_hex c =
    let n = code c in
    (leb b'0' n && leb n b'9') || (leb b'a' n && leb n b'f') || (leb b'A' n && leb n b'F')

-- What follows `n` hexadecimal digits.
hex_run : ℕ → String → Option String
hex_run zero s = some s
hex_run (suc n) String.[] = none
hex_run (suc n) (String.◌∷◌ c s) = let rest = hex_run n s in if is_hex c then rest else none

dash : Option String → Option String
dash none = none
dash (some String.[]) = none
dash (some (String.◌∷◌ c s)) = if eqb (code c) b'-' then some s else none

infixl 20 ◌then_hex◌
◌then_hex◌ : Option String → ℕ → Option String
none then_hex n = none
some s then_hex n = hex_run n s

is_end : Option String → Bool
is_end none = false
is_end (some s) = is_empty s

-- `_UUID_RE.match(s)`: groups of 8, 4, 4, 4 and 12 hexadecimal digits.
is_uuid : String → Bool
unfolding hex_run dash ◌then_hex◌ is_end is_hex
is_uuid s =
    is_end (dash (dash (dash (dash (hex_run 8 s) then_hex 4) then_hex 4) then_hex 4) then_hex 12)

unfoldable pub is_memory_id : String → Bool
unfolding is_uuid
is_memory_id value = is_uuid (strip value)

-- Memory ids are stored in lower case.
unfoldable pub norm_id : String → String
norm_id value = lower (strip value)

-- Normalising is idempotent.
pub norm_id_idem : (s : String) → norm_id (norm_id s) ≡ norm_id s
unfolding norm_id
norm_id_idem s = ap lower (strip-lower (strip s) ∙ ap lower (strip_idem s)) ∙ lower_idem (strip s)

-- `[A-Za-z0-9._:-]`
label_char : Char → Bool
label_char c =
    let n = code c in
    (leb b'a' n && leb n b'z')
    || (leb b'A' n && leb n b'Z')
    || (leb b'0' n && leb n b'9')
    || eqb n b'.'
    || eqb n b'_'
    || eqb n b':'
    || eqb n b'-'

-- `_SOURCE_RE.sub("-", s)`; the flag says that the previous character was of the same run.
sub_runs : Bool → String → String
sub_runs inside String.[] = ""
sub_runs inside (String.◌∷◌ c s) =
    let kept = String.◌∷◌ c (sub_runs false s) in
    let next = sub_runs true s in
    if label_char c then kept else if inside then next else String.◌∷◌ "-" next

is_dash : Char → Bool
is_dash c = eqb (code c) b'-'

abbrev pub source_max_chars : ℕ
source_max_chars = 64

unfoldable pub clean_source : Option String → Option String
unfolding sub_runs label_char lstrip rstrip is_dash
clean_source none = none
clean_source (some value) =
    if is_empty value
    then none
    else (let cleaned =
          take source_max_chars (rstrip is_dash (lstrip is_dash (sub_runs false value))) in
        if is_empty cleaned then none else some cleaned)

-- A memory id is no empty text.
pub is_memory_id-filled : (s : String) → is_memory_id s ≡ true → is_empty (norm_id s) ≡ false
unfolding is_memory_id norm_id lower
is_memory_id-filled s h = filled (strip s) h
  where
    filled : (t : String) → is_uuid t ≡ true → is_empty (lower t) ≡ false
    filled String.[] e = cc
    filled (String.◌∷◌ c t) e = refl
