-- ===== src/Mojibake/Repair.antt =====
-- The detector and the repair: `contains_mojibake` and `detect_mojibake`, `_repair_run` and
-- `repair_text`.
use agentic_memory_stack_for.Prelude.{
  ℕ, Bool, true, false, ◌&&◌, ◌||◌, Option, none, some, List, [], ◌∷◌, ◌++◌, ltb, leb,
}
use agentic_memory_stack_for.Mojibake.Codec.{cp437_byte, cp437_encode, utf8_decode}

-- `_LEAD_CHARS` and `_CONT_CHARS`: the characters of the bytes 0xC2 to 0xF4, and 0x80 to 0xBF.
unfoldable pub in_bytes : ℕ → ℕ → Option ℕ → Bool
in_bytes lo hi none = false
in_bytes lo hi (some b) = leb lo b && leb b hi

unfoldable pub is_lead : ℕ → Bool
unfolding cp437_byte in_bytes
is_lead c = in_bytes 0xc2 0xf4 (cp437_byte c)

unfoldable pub is_cont : ℕ → Bool
unfolding cp437_byte in_bytes
is_cont c = in_bytes 0x80 0xbf (cp437_byte c)

unfoldable pub starts_cont : List ℕ → Bool
unfolding is_cont
starts_cont [] = false
starts_cont (c ∷ cs) = is_cont c

-- `MOJIBAKE_RE.search`: a lead character with a continuation character behind it.
unfoldable pub contains_mojibake : List ℕ → Bool
unfolding is_lead starts_cont
contains_mojibake [] = false
contains_mojibake (c ∷ cs) = (is_lead c && starts_cont cs) || contains_mojibake cs

-- One run of non-ASCII characters, read again; as it is, where either codec raises.
unfoldable pub repair_run : List ℕ → List ℕ
unfolding cp437_encode utf8_decode
repair_run run = elim (cp437_encode run) [
  | none ↦ run
  | some bytes ↦ elim (utf8_decode bytes) [ none ↦ run | some text ↦ text ]
]

-- `_NON_ASCII_RUN_RE.sub`: the run before an ASCII character ends there.
unfoldable pub repair_from : List ℕ → List ℕ → List ℕ
unfolding repair_run
repair_from run [] = repair_run run
repair_from run (c ∷ cs) = elim (ltb c 128) [
  | true ↦ repair_run run ++ (c ∷ repair_from [] cs)
  | false ↦ repair_from (run ++ (c ∷ [])) cs
]

unfoldable pub repair_text : List ℕ → List ℕ
unfolding repair_from
repair_text text = repair_from [] text
