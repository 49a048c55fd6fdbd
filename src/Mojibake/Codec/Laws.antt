-- ===== src/Mojibake/Codec/Laws.antt =====
-- The codecs undo one another.
use Prim.Native.Nat.{◌/◌, ◌%◌}
use mathlib.Core.List.{append_assoc}
use mathlib.Core.Option
use agentic_memory_stack_for.Prelude.{
  ℕ, zero, suc, ◌+◌, ◌-◌, ◌*◌, ◌<◌, ◌≤◌, ◌≡◌, refl, sym, ap, ◌∙◌, arith, Bool, true, false, Option,
  none, some, List, [], ◌∷◌, ◌++◌, map, ltb, eqb, if◌then◌else◌, All, Bool-cases, inl, inr,
}
use agentic_memory_stack_for.Mojibake.Codec.{
  cp437_char, cp437_byte, cp437_encode, utf8_char, utf8_encode, utf8_decode, utf8_from, Utf8State,
  start, more, utf8_step, first_byte, IsScalar,
}

-- Every number below the count passes a test.
bytes_pass : (ℕ → Bool) → ℕ → Bool
bytes_pass test zero = true
bytes_pass test (suc left) = let rest = bytes_pass test left in if test left then rest else false

bytes_pass-at :
    (test : ℕ → Bool) (b left : ℕ) → b < left → bytes_pass test left ≡ true → test b ≡ true
unfolding bytes_pass
bytes_pass-at test b zero h k = absurd (omega arith)
bytes_pass-at test b (suc left) h k = ground (arith, bytes_pass-at test b left)

is_byte : Option ℕ → ℕ → Bool
is_byte none b = false
is_byte (some a) b = eqb a b

is_byte_sound : (o : Option ℕ) (b : ℕ) → is_byte o b ≡ true → o ≡ some b
unfolding is_byte
is_byte_sound none b h = cc
is_byte_sound (some a) b h = ground arith

bytes_back : bytes_pass (λ b. is_byte (cp437_byte (cp437_char b)) b) 256 ≡ true
unfolding bytes_pass is_byte cp437_byte cp437_char
bytes_back = refl

pub cp437_byte-cp437_char : (b : ℕ) → b < 256 → cp437_byte (cp437_char b) ≡ some b
cp437_byte-cp437_char b h =
    is_byte_sound (cp437_byte (cp437_char b)) b (bytes_pass-at _ b 256 h bytes_back)

keeps_ascii :
    bytes_pass
      (λ b. is_byte (some (if ltb (cp437_char b) 128 then 1 else 0)) (if ltb b 128 then 1 else 0))
      256
    ≡ true
unfolding bytes_pass is_byte cp437_char
keeps_ascii = refl

-- A character of code page 437 is ASCII when its byte is.
pub ltb-cp437_char : (b : ℕ) → b < 256 → ltb (cp437_char b) 128 ≡ ltb b 128
unfolding is_byte
ltb-cp437_char b h =
    let e =
      bytes_pass-at
        (λ b. is_byte (some (if ltb (cp437_char b) 128 then 1 else 0)) (if ltb b 128 then 1 else 0))
        b 256 h keeps_ascii in
    ground arith

scalars : bytes_pass (λ b. ltb (cp437_char b) 0xd800) 256 ≡ true
unfolding bytes_pass cp437_char
scalars = refl

pub cp437_char-IsScalar : (b : ℕ) → b < 256 → IsScalar (cp437_char b)
cp437_char-IsScalar b h =
    let e = bytes_pass-at (λ b. ltb (cp437_char b) 0xd800) b 256 h scalars in ground arith

pub cp437_encode-map :
    (bs : List ℕ) → All (λ b. b < 256) bs → cp437_encode (map cp437_char bs) ≡ some bs
unfolding cp437_encode
cp437_encode-map [] h = refl
cp437_encode-map (b ∷ bs) h = ground (arith, cp437_byte-cp437_char b h.0, cp437_encode-map bs h.1)

utf8_from-step :
    (s : Utf8State) (b : ℕ) (t : Utf8State) (done bs : List ℕ)
    → utf8_step s b ≡ some (t, done)
    → utf8_from s (b ∷ bs) ≡ Option.map (λ cs. done ++ cs) (utf8_from t bs)
unfolding utf8_from
utf8_from-step start b t done bs e = ground arith
utf8_from-step (more n acc lo hi) b t done bs e = ground arith

map-nil : (o : Option (List ℕ)) → Option.map (λ cs. [] ++ cs) o ≡ o
map-nil none = refl
map-nil (some x) = refl

-- A byte that ends no character.
utf8_from-quiet :
    (s : Utf8State) (b : ℕ) (t : Utf8State) (bs : List ℕ)
    → utf8_step s b ≡ some (t, [])
    → utf8_from s (b ∷ bs) ≡ utf8_from t bs
utf8_from-quiet s b t bs e = utf8_from-step s b t [] bs e ∙ map-nil (utf8_from t bs)

-- The last byte of the character `c`.
utf8_from-last :
    (acc lo hi b c : ℕ) (bs : List ℕ)
    → lo ≤ b
    → b ≤ hi
    → acc * 64 + (b - 0x80) ≡ c
    → utf8_from (more 0 acc lo hi) (b ∷ bs) ≡ Option.map (λ cs. c ∷ cs) (utf8_from start bs)
unfolding utf8_step
utf8_from-last acc lo hi b c bs hl hh e =
    utf8_from-step (more 0 acc lo hi) b start (c ∷ []) bs (ground arith)

-- A byte between.
utf8_from-inner :
    (n acc lo hi b acc' : ℕ) (bs : List ℕ)
    → lo ≤ b
    → b ≤ hi
    → acc * 64 + (b - 0x80) ≡ acc'
    → utf8_from (more (suc n) acc lo hi) (b ∷ bs) ≡ utf8_from (more n acc' 0x80 0xbf) bs
unfolding utf8_step
utf8_from-inner n acc lo hi b acc' bs hl hh e =
    utf8_from-quiet (more (suc n) acc lo hi) b (more n acc' 0x80 0xbf) bs (ground arith)

module _ (c : ℕ) (bs : List ℕ) where
  one_byte : c < 0x80 → utf8_from start (c ∷ bs) ≡ Option.map (λ cs. c ∷ cs) (utf8_from start bs)
  unfolding utf8_step first_byte
  one_byte h = utf8_from-step start c start (c ∷ []) bs (ground arith)

  two_bytes :
      0x80 ≤ c
      → c < 0x800
      → utf8_from start ((0xc0 + c / 64) ∷ (0x80 + c % 64) ∷ bs)
        ≡ Option.map (λ cs. c ∷ cs) (utf8_from start bs)
  unfolding utf8_step first_byte
  two_bytes l h =
      utf8_from-quiet start (0xc0 + c / 64) (more 0 (c / 64) 0x80 0xbf) _ (ground arith)
      ∙ utf8_from-last (c / 64) 0x80 0xbf (0x80 + c % 64) c bs (omega arith) (omega arith)
          (omega arith)

  three_bytes :
      0x800 ≤ c
      → c < 0x10000
      → IsScalar c
      → utf8_from start ((0xe0 + c / 4096) ∷ (0x80 + c / 64 % 64) ∷ (0x80 + c % 64) ∷ bs)
        ≡ Option.map (λ cs. c ∷ cs) (utf8_from start bs)
  unfolding utf8_step first_byte
  three_bytes l h k =
      let lo : ℕ = if eqb (0xe0 + c / 4096) 0xe0 then 0xa0 else 0x80 in
      let hi : ℕ = if eqb (0xe0 + c / 4096) 0xed then 0x9f else 0xbf in
      utf8_from-quiet start (0xe0 + c / 4096) (more 1 (c / 4096) lo hi) _ (ground arith)
      ∙ utf8_from-inner 0 (c / 4096) lo hi (0x80 + c / 64 % 64) (c / 64) _ (ground arith)
          (ground arith) (omega arith)
      ∙ utf8_from-last (c / 64) 0x80 0xbf (0x80 + c % 64) c bs (omega arith) (omega arith)
          (omega arith)

  four_bytes :
      0x10000 ≤ c
      → c < 0x110000
      → utf8_from start (
          (0xf0 + c / 262144)
          ∷ (0x80 + c / 4096 % 64)
          ∷ (0x80 + c / 64 % 64)
          ∷ (0x80 + c % 64)
          ∷ bs)
        ≡ Option.map (λ cs. c ∷ cs) (utf8_from start bs)
  unfolding utf8_step first_byte
  four_bytes l h =
      let lo : ℕ = if eqb (0xf0 + c / 262144) 0xf0 then 0x90 else 0x80 in
      let hi : ℕ = if eqb (0xf0 + c / 262144) 0xf4 then 0x8f else 0xbf in
      utf8_from-quiet start (0xf0 + c / 262144) (more 2 (c / 262144) lo hi) _ (ground arith)
      ∙ utf8_from-inner 1 (c / 262144) lo hi (0x80 + c / 4096 % 64) (c / 4096) _ (ground arith)
          (ground arith) (omega arith)
      ∙ utf8_from-inner 0 (c / 4096) 0x80 0xbf (0x80 + c / 64 % 64) (c / 64) _ (omega arith)
          (omega arith) (omega arith)
      ∙ utf8_from-last (c / 64) 0x80 0xbf (0x80 + c % 64) c bs (omega arith) (omega arith)
          (omega arith)

-- A character's bytes are read as that character, whatever follows.
utf8_from-utf8_char :
    (c : ℕ) (bs : List ℕ)
    → IsScalar c
    → utf8_from start (utf8_char c ++ bs) ≡ Option.map (λ cs. c ∷ cs) (utf8_from start bs)
unfolding utf8_char
utf8_from-utf8_char c bs h = elim (Bool-cases (ltb c 0x80)) [
  | inl e ↦ rw e (one_byte c bs (ground arith))
  | inr e ↦ elim (Bool-cases (ltb c 0x800)) [
    | inl f ↦ rw (e, f) (two_bytes c bs (ground arith) (ground arith))
    | inr f ↦ elim (Bool-cases (ltb c 0x10000)) [
      | inl g ↦ rw (e, f, g) (three_bytes c bs (ground arith) (ground arith) h)
      | inr g ↦ rw (e, f, g) (four_bytes c bs (ground arith) h.0)
    ]
  ]
]

pub utf8_decode-utf8_encode :
    (text : List ℕ) → All IsScalar text → utf8_decode (utf8_encode text) ≡ some text
unfolding utf8_decode utf8_encode utf8_from
utf8_decode-utf8_encode [] h = refl
utf8_decode-utf8_encode (c ∷ cs) h =
    utf8_from-utf8_char c (utf8_encode cs) h.0
    ∙ ap (Option.map (λ ds. c ∷ ds)) (utf8_decode-utf8_encode cs h.1)

pub utf8_encode-append :
    (xs ys : List ℕ) → utf8_encode (xs ++ ys) ≡ utf8_encode xs ++ utf8_encode ys
unfolding utf8_encode
utf8_encode-append [] ys = refl
utf8_encode-append (x ∷ xs) ys =
    ap (◌++◌ (utf8_char x)) (utf8_encode-append xs ys) ∙ sym (append_assoc (utf8_char x) _ _)

pub utf8_char-IsByte : (c : ℕ) → IsScalar c → All (λ b. b < 256) (utf8_char c)
unfolding utf8_char
utf8_char-IsByte c h = ground arith

pub utf8_char-high :
    (c : ℕ) → IsScalar c → ltb c 128 ≡ false → All (λ b. ltb b 128 ≡ false) (utf8_char c)
unfolding utf8_char
utf8_char-high c h e = ground arith
