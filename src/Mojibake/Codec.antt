-- ===== src/Mojibake/Codec.antt =====
-- The two codecs of Python that scripts/wsl/cp437-repair.py calls: code page 437, and UTF-8 with
-- `errors="strict"`. A text is the list of its code points, `bytes` a list of numbers.
use Prim.Native.Nat.{◌/◌, ◌%◌}
pub mod Laws
use agentic_memory_stack_for.Prelude.{
  ℕ, zero, suc, ◌+◌, ◌-◌, ◌*◌, ◌<◌, Bool, ◌&&◌, ◌||◌, Option, none, some, List, [], ◌∷◌, ◌++◌, map,
  ltb, leb, eqb, if◌then◌else◌, ◌≡◌, true,
}
use mathlib.Core.Option

-- The characters of the bytes 0x80 to 0xFF.
abbrev high_chars : List ℕ
high_chars =
    199 ∷ 252 ∷ 233 ∷ 226 ∷ 228 ∷ 224 ∷ 229 ∷ 231 ∷ 234 ∷ 235 ∷ 232 ∷ 239 ∷ 238 ∷ 236 ∷ 196 ∷ 197
    ∷ 201 ∷ 230 ∷ 198 ∷ 244 ∷ 246 ∷ 242 ∷ 251 ∷ 249 ∷ 255 ∷ 214 ∷ 220 ∷ 162 ∷ 163 ∷ 165 ∷ 8359 ∷ 402
    ∷ 225 ∷ 237 ∷ 243 ∷ 250 ∷ 241 ∷ 209 ∷ 170 ∷ 186 ∷ 191 ∷ 8976 ∷ 172 ∷ 189 ∷ 188 ∷ 161 ∷ 171 ∷ 187
    ∷ 9617 ∷ 9618 ∷ 9619 ∷ 9474 ∷ 9508 ∷ 9569 ∷ 9570 ∷ 9558 ∷ 9557 ∷ 9571 ∷ 9553 ∷ 9559 ∷ 9565
    ∷ 9564 ∷ 9563 ∷ 9488 ∷ 9492 ∷ 9524 ∷ 9516 ∷ 9500 ∷ 9472 ∷ 9532 ∷ 9566 ∷ 9567 ∷ 9562 ∷ 9556
    ∷ 9577 ∷ 9574 ∷ 9568 ∷ 9552 ∷ 9580 ∷ 9575 ∷ 9576 ∷ 9572 ∷ 9573 ∷ 9561 ∷ 9560 ∷ 9554 ∷ 9555
    ∷ 9579 ∷ 9578 ∷ 9496 ∷ 9484 ∷ 9608 ∷ 9604 ∷ 9612 ∷ 9616 ∷ 9600 ∷ 945 ∷ 223 ∷ 915 ∷ 960 ∷ 931
    ∷ 963 ∷ 181 ∷ 964 ∷ 934 ∷ 920 ∷ 937 ∷ 948 ∷ 8734 ∷ 966 ∷ 949 ∷ 8745 ∷ 8801 ∷ 177 ∷ 8805 ∷ 8804
    ∷ 8992 ∷ 8993 ∷ 247 ∷ 8776 ∷ 176 ∷ 8729 ∷ 183 ∷ 8730 ∷ 8319 ∷ 178 ∷ 9632 ∷ 160 ∷ []

abbrev char_at : ℕ → List ℕ → ℕ
char_at n [] = 0
char_at zero (c ∷ cs) = c
char_at (suc n) (c ∷ cs) = char_at n cs

-- The byte of a character, where the list starts at byte `b`.
abbrev byte_from : ℕ → ℕ → List ℕ → Option ℕ
byte_from b c [] = none
byte_from b c (d ∷ ds) = let rest = byte_from (suc b) c ds in if eqb c d then some b else rest

-- `bytes([b]).decode("cp437")`
unfoldable pub cp437_char : ℕ → ℕ
cp437_char b = if ltb b 128 then b else char_at (b - 128) high_chars

-- `c.encode("cp437")`: `none` is a UnicodeEncodeError.
unfoldable pub cp437_byte : ℕ → Option ℕ
cp437_byte c = if ltb c 128 then some c else byte_from 128 c high_chars

unfoldable pub cp437_encode : List ℕ → Option (List ℕ)
cp437_encode [] = some []
cp437_encode (c ∷ cs) =
    let rest = cp437_encode cs in
    elim (cp437_byte c) [ none ↦ none | some b ↦ Option.map (λ bs. b ∷ bs) rest ]

-- How many continuation bytes are to come, the bits read so far, and the bounds of the next byte,
-- which exclude overlong forms, surrogates and all above U+10FFFF.
pub data Utf8State : Type 0 where
  start : Utf8State
  more : ℕ → ℕ → ℕ → ℕ → Utf8State

unfoldable pub first_byte : ℕ → Option (Utf8State × List ℕ)
first_byte b =
    if ltb b 0x80
    then some (start, b ∷ [])
    else if ltb b 0xc2
    then none
    else if ltb b 0xe0
    then some (more 0 (b - 0xc0) 0x80 0xbf, [])
    else if ltb b 0xf0
    then some (
      more 1 (b - 0xe0) (if eqb b 0xe0 then 0xa0 else 0x80) (if eqb b 0xed then 0x9f else 0xbf),
      [],
    )
    else if ltb b 0xf5
    then some (
      more 2 (b - 0xf0) (if eqb b 0xf0 then 0x90 else 0x80) (if eqb b 0xf4 then 0x8f else 0xbf),
      [],
    )
    else none

-- The next state and the characters that are done, or `none`: a UnicodeDecodeError.
unfoldable pub utf8_step : Utf8State → ℕ → Option (Utf8State × List ℕ)
unfolding first_byte
utf8_step start b = first_byte b
utf8_step (more zero acc lo hi) b =
    if leb lo b && leb b hi then some (start, (acc * 64 + (b - 0x80)) ∷ []) else none
utf8_step (more (suc n) acc lo hi) b =
    if leb lo b && leb b hi then some (more n (acc * 64 + (b - 0x80)) 0x80 0xbf, []) else none

unfoldable pub utf8_from : Utf8State → List ℕ → Option (List ℕ)
unfolding utf8_step
utf8_from start [] = some []
utf8_from (more n acc lo hi) [] = none
utf8_from s (b ∷ bs) = elim (utf8_step s b) [
  | none ↦ none
  | some (t, done) ↦ Option.map (λ cs. done ++ cs) (utf8_from t bs)
]

-- `bs.decode("utf-8", errors="strict")`
unfoldable pub utf8_decode : List ℕ → Option (List ℕ)
unfolding utf8_from
utf8_decode bs = utf8_from start bs

-- `c.encode("utf-8")` of one character.
unfoldable pub utf8_char : ℕ → List ℕ
utf8_char c =
    if ltb c 0x80
    then c ∷ []
    else if ltb c 0x800
    then (0xc0 + c / 64) ∷ (0x80 + c % 64) ∷ []
    else if ltb c 0x10000
    then (0xe0 + c / 4096) ∷ (0x80 + c / 64 % 64) ∷ (0x80 + c % 64) ∷ []
    else (0xf0 + c / 262144) ∷ (0x80 + c / 4096 % 64) ∷ (0x80 + c / 64 % 64) ∷ (0x80 + c % 64) ∷ []

unfoldable pub utf8_encode : List ℕ → List ℕ
unfolding utf8_char
utf8_encode [] = []
utf8_encode (c ∷ cs) = utf8_char c ++ utf8_encode cs

-- What PowerShell stored for a text: its UTF-8 bytes, read as code page 437.
unfoldable pub garble : List ℕ → List ℕ
unfolding utf8_encode cp437_char
garble text = map cp437_char (utf8_encode text)

-- A character that is no surrogate.
abbrev pub IsScalar : ℕ → Type 0
IsScalar c = (c < 0x110000) × (ltb c 0xd800 || leb 0xe000 c ≡ true)
