-- ===== src/Prelude/Text.antt =====
-- Python's text operations on `str`: `strip`, `lower`, slices, and membership of a text in a
-- tuple or a set of texts. `lower` folds A to Z: labels, tiers, brands and ids are ASCII.
pub mod Laws
use Prim.Native.Nat.{ℕ, zero, suc, ◌≤◌}
use Prim.Native.Char.{Char, code}
use Prim.Native.String.{String}
use mathlib.Core.Bool.{Bool, true, false, ◌&&◌, ◌||◌}
use mathlib.Core.List.{List, [], ◌∷◌}
use native.Mathlib.Omega.{arith}
use text.Mathlib.Text.{◌==◌}
use agentic_memory_stack_for.Prelude.Tests.{leb, eqb, if◌then◌else◌}

-- `str.isspace` of one character, by its code point.
unfoldable pub space_code : ℕ → Bool
space_code n =
    (leb 9 n && leb n 13)
    || (leb 28 n && leb n 32)
    || eqb n 133
    || eqb n 160
    || eqb n 5760
    || (leb 8192 n && leb n 8202)
    || eqb n 8232
    || eqb n 8233
    || eqb n 8239
    || eqb n 8287
    || eqb n 12288

unfoldable pub is_space : Char → Bool
is_space c = space_code (code c)

abbrev pub is_empty : String → Bool
is_empty String.[] = true
is_empty (String.◌∷◌ c s) = false

abbrev pub length : String → ℕ
length String.[] = 0
length (String.◌∷◌ c s) = suc (length s)

unfoldable pub lstrip : (Char → Bool) → String → String
lstrip p String.[] = String.[]
lstrip p (String.◌∷◌ c s) = let rest = lstrip p s in if p c then rest else String.◌∷◌ c s

unfoldable pub rstrip : (Char → Bool) → String → String
rstrip p String.[] = String.[]
rstrip p (String.◌∷◌ c s) =
    let rest = rstrip p s in if is_empty rest && p c then String.[] else String.◌∷◌ c rest

unfoldable pub strip : String → String
unfolding lstrip rstrip
strip s = rstrip is_space (lstrip is_space s)

-- The character of the second text that stands where `c` stands in the first, else `c`.
unfoldable pub translate : String → String → Char → Char
translate String.[] to c = c
translate (String.◌∷◌ a from) String.[] c = c
translate (String.◌∷◌ a from) (String.◌∷◌ b to) c =
    let rest = translate from to c in if eqb (code a) (code c) then b else rest

abbrev pub uppers : String
uppers = "ABCDEFGHIJKLMNOPQRSTUVWXYZ"

abbrev pub lowers : String
lowers = "abcdefghijklmnopqrstuvwxyz"

unfoldable pub lower_char : Char → Char
lower_char c = translate uppers lowers c

unfoldable pub lower : String → String
lower String.[] = String.[]
lower (String.◌∷◌ c s) = String.◌∷◌ (lower_char c) (lower s)

abbrev pub take : ℕ → String → String
take zero s = String.[]
take (suc n) String.[] = String.[]
take (suc n) (String.◌∷◌ c s) = String.◌∷◌ c (take n s)

pub length-take : (n : ℕ) (s : String) → length (take n s) ≤ n
length-take zero s = omega arith
length-take (suc n) String.[] = omega arith
length-take (suc n) (String.◌∷◌ c s) = omega (arith, length-take n s)

-- `x in (...)` over texts.
unfoldable pub mem : String → List String → Bool
mem s [] = false
mem s (x ∷ xs) = s == x || mem s xs
