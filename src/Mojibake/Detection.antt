-- ===== src/Mojibake/Detection.antt =====
-- What the detector finds in garbled text, and what is left of a text that was garbled twice.
use Prim.Native.Nat.{◌/◌, ◌%◌}
use agentic_memory_stack_for.Prelude.{
  ℕ, ◌+◌, ◌<◌, ◌≤◌, ◌≡◌, refl, ap, ◌∙◌, arith, Bool, true, false, not, List, [], ◌∷◌, ◌++◌, map,
  ltb, All, any, Bool-cases, inl, inr,
}
use agentic_memory_stack_for.Mojibake.Codec.{
  cp437_char, cp437_byte, utf8_char, utf8_encode, garble, IsScalar,
}
use agentic_memory_stack_for.Mojibake.Codec.Laws.{cp437_byte-cp437_char, cp437_char-IsScalar}
use agentic_memory_stack_for.Mojibake.Repair.{
  in_bytes, is_lead, is_cont, starts_cont, contains_mojibake, repair_text,
}
use agentic_memory_stack_for.Mojibake.RoundTrip.{
  utf8_encode-IsByte, garble-cons, garble-ascii, repair_text-garble,
}

abbrev pub non_ascii : ℕ → Bool
non_ascii c = not (ltb c 128)

is_lead-cp437_char : (b : ℕ) → 0xc2 ≤ b → b ≤ 0xf4 → is_lead (cp437_char b) ≡ true
unfolding is_lead in_bytes
is_lead-cp437_char b l h = ground (arith, cp437_byte-cp437_char b)

is_cont-cp437_char : (b : ℕ) → 0x80 ≤ b → b ≤ 0xbf → is_cont (cp437_char b) ≡ true
unfolding is_cont in_bytes
is_cont-cp437_char b l h = ground (arith, cp437_byte-cp437_char b)

contains_pair :
    (b d : ℕ) (rest : List ℕ)
    → (0xc2 ≤ b) × (b ≤ 0xf4) × (0x80 ≤ d) × (d ≤ 0xbf)
    → contains_mojibake (cp437_char b ∷ cp437_char d ∷ rest) ≡ true
unfolding contains_mojibake starts_cont
contains_pair b d rest h =
    ground (arith, is_lead-cp437_char b h.0 h.1, is_cont-cp437_char d h.2 h.3)

contains_high :
    (c : ℕ) (rest : List ℕ)
    → IsScalar c
    → ltb c 128 ≡ false
    → contains_mojibake (map cp437_char (utf8_char c) ++ rest) ≡ true
unfolding utf8_char
contains_high c rest h e = elim (Bool-cases (ltb c 0x800)) [
  | inl f ↦ rw (e, f) (contains_pair (0xc0 + c / 64) (0x80 + c % 64) _ (ground arith))
  | inr f ↦ elim (Bool-cases (ltb c 0x10000)) [
    | inl g ↦ rw (e, f, g) (contains_pair (0xe0 + c / 4096) (0x80 + c / 64 % 64) _ (ground arith))
    | inr g ↦
        rw (e, f, g) (contains_pair (0xf0 + c / 262144) (0x80 + c / 4096 % 64) _ (ground arith))
  ]
]

contains_ascii :
    (c : ℕ) (cs : List ℕ) → ltb c 128 ≡ true → contains_mojibake (c ∷ cs) ≡ contains_mojibake cs
unfolding contains_mojibake is_lead cp437_byte in_bytes
contains_ascii c cs h = ground arith

contains_end : contains_mojibake (garble []) ≡ false
unfolding contains_mojibake garble utf8_encode
contains_end = refl

-- The detector finds a text that was encoded as UTF-8 and decoded as CP437 exactly when the text
-- has a character that is not ASCII.
pub contains_mojibake-garble :
    (text : List ℕ) → All IsScalar text → contains_mojibake (garble text) ≡ any non_ascii text
unfolding any
contains_mojibake-garble [] h = contains_end
contains_mojibake-garble (c ∷ cs) h = elim (Bool-cases (ltb c 128)) [
  | inl e ↦
      rw (e, garble-ascii c cs e) (contains_ascii c (garble cs) e ∙ contains_mojibake-garble cs h.1)
  | inr e ↦ rw (e, garble-cons c cs) (contains_high c (garble cs) h.0 e)
]

garble-IsScalar : (bs : List ℕ) → All (λ b. b < 256) bs → All IsScalar (map cp437_char bs)
garble-IsScalar [] h = tt
garble-IsScalar (b ∷ bs) h = (cp437_char-IsScalar b h.0, garble-IsScalar bs h.1)

garble_text-IsScalar : (text : List ℕ) → All IsScalar text → All IsScalar (garble text)
unfolding garble
garble_text-IsScalar text h = garble-IsScalar (utf8_encode text) (utf8_encode-IsByte text h)

-- One repair of a text that was garbled twice leaves the text that was garbled once, in which the
-- detector still finds mojibake if the text has a character that is not ASCII.
pub repair_text-garble_twice :
    (text : List ℕ)
    → All IsScalar text
    → any non_ascii text ≡ true
    → let once = repair_text (garble (garble text)) in
      (once ≡ garble text) × (contains_mojibake once ≡ true) × (repair_text once ≡ text)
repair_text-garble_twice text h k =
    let e = repair_text-garble (garble text) (garble_text-IsScalar text h) in
    (
      e,
      ap contains_mojibake e ∙ contains_mojibake-garble text h ∙ k,
      ap repair_text e ∙ repair_text-garble text h,
    )
