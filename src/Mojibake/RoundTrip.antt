-- ===== src/Mojibake/RoundTrip.antt =====
-- The repair undoes the garbling, and the detector sees it.
use mathlib.Core.List.{append-nil, append_assoc, map-append}
use agentic_memory_stack_for.Prelude.{
  ℕ, ◌<◌, ◌≡◌, refl, sym, ap, ◌∙◌, arith, true, false, List, [], ◌∷◌, ◌++◌, map, ltb, All,
  All-append, Bool-cases, inl, inr,
}
use agentic_memory_stack_for.Mojibake.Codec.{cp437_char, utf8_char, utf8_encode, garble, IsScalar}
use agentic_memory_stack_for.Mojibake.Codec.Laws.{
  ltb-cp437_char, cp437_encode-map, utf8_decode-utf8_encode, utf8_encode-append, utf8_char-IsByte,
  utf8_char-high,
}
use agentic_memory_stack_for.Mojibake.Repair.{repair_run, repair_from, repair_text}

pub utf8_encode-IsByte : (text : List ℕ) → All IsScalar text → All (λ b. b < 256) (utf8_encode text)
unfolding utf8_encode
utf8_encode-IsByte [] h = tt
utf8_encode-IsByte (c ∷ cs) h =
    All-append _ (utf8_char c) (utf8_encode cs) (utf8_char-IsByte c h.0) (utf8_encode-IsByte cs h.1)

-- A run that garbling left is read back.
repair_run-garble : (text : List ℕ) → All IsScalar text → repair_run (garble text) ≡ text
unfolding repair_run garble
repair_run-garble text h = ground (
  arith,
  cp437_encode-map (utf8_encode text) (utf8_encode-IsByte text h),
  utf8_decode-utf8_encode text h,
)

garble-append : (xs ys : List ℕ) → garble (xs ++ ys) ≡ garble xs ++ garble ys
unfolding garble
garble-append xs ys =
    ap (map cp437_char) (utf8_encode-append xs ys)
    ∙ map-append cp437_char (utf8_encode xs) (utf8_encode ys)

repair_from-high_char :
    (c : ℕ) (run cs : List ℕ)
    → ltb c 128 ≡ false
    → repair_from run (c ∷ cs) ≡ repair_from (run ++ (c ∷ [])) cs
unfolding repair_from
repair_from-high_char c run cs h = ground arith

repair_from-ascii :
    (c : ℕ) (run cs : List ℕ)
    → ltb c 128 ≡ true
    → repair_from run (c ∷ cs) ≡ repair_run run ++ (c ∷ repair_from [] cs)
unfolding repair_from
repair_from-ascii c run cs h = ground arith

-- The characters of non-ASCII bytes join the run.
repair_from-high :
    (bs run rest : List ℕ)
    → All (λ b. b < 256) bs
    → All (λ b. ltb b 128 ≡ false) bs
    → repair_from run (map cp437_char bs ++ rest) ≡ repair_from (run ++ map cp437_char bs) rest
repair_from-high [] run rest h k = ap (λ r. repair_from r rest) (sym (append-nil run))
repair_from-high (b ∷ bs) run rest h k =
    repair_from-high_char (cp437_char b) run _ (ltb-cp437_char b h.0 ∙ k.0)
    ∙ repair_from-high bs (run ++ (cp437_char b ∷ [])) rest h.1 k.1
    ∙ ap (λ r. repair_from r rest) (append_assoc run (cp437_char b ∷ []) (map cp437_char bs))

pub garble-cons :
    (c : ℕ) (cs : List ℕ) → garble (c ∷ cs) ≡ map cp437_char (utf8_char c) ++ garble cs
unfolding garble utf8_encode
garble-cons c cs = map-append cp437_char (utf8_char c) (utf8_encode cs)

pub garble-ascii : (c : ℕ) (cs : List ℕ) → ltb c 128 ≡ true → garble (c ∷ cs) ≡ c ∷ garble cs
unfolding garble utf8_encode utf8_char cp437_char
garble-ascii c cs h = ground arith

garble_one : (c : ℕ) → map cp437_char (utf8_char c) ≡ garble (c ∷ [])
unfolding garble utf8_encode
garble_one c = ap (map cp437_char) (sym (append-nil (utf8_char c)))

repair_from-garble_end : (run : List ℕ) → repair_from run (garble []) ≡ repair_run run
unfolding repair_from garble utf8_encode
repair_from-garble_end run = refl

-- With the characters `run` that are pending.
repair_from-garble :
    (run text : List ℕ)
    → All IsScalar run
    → All IsScalar text
    → repair_from (garble run) (garble text) ≡ run ++ text
unfolding garble utf8_encode
repair_from-garble run [] hr ht =
    repair_from-garble_end (garble run) ∙ repair_run-garble run hr ∙ sym (append-nil run)
repair_from-garble run (c ∷ cs) hr ht = elim (Bool-cases (ltb c 128)) [
  | inl e ↦
      ap (repair_from (garble run)) (garble-ascii c cs e)
      ∙ repair_from-ascii c (garble run) (garble cs) e
      ∙ ap (λ r. r ++ (c ∷ repair_from [] (garble cs))) (repair_run-garble run hr)
      ∙ ap (λ r. run ++ (c ∷ r)) (repair_from-garble [] cs tt ht.1)
  | inr e ↦
      ap (repair_from (garble run)) (garble-cons c cs)
      ∙ repair_from-high (utf8_char c) (garble run) (garble cs) (utf8_char-IsByte c ht.0)
          (utf8_char-high c ht.0 e)
      ∙ ap (λ r. repair_from (garble run ++ r) (garble cs)) (garble_one c)
      ∙ ap (λ r. repair_from r (garble cs)) (sym (garble-append run (c ∷ [])))
      ∙ repair_from-garble (run ++ (c ∷ [])) cs (All-append _ run (c ∷ []) hr (ht.0, tt)) ht.1
      ∙ append_assoc run (c ∷ []) cs
]

-- The repair turns a text of Unicode scalar values that was encoded as UTF-8 and decoded as CP437
-- back into the text.
pub repair_text-garble : (text : List ℕ) → All IsScalar text → repair_text (garble text) ≡ text
unfolding repair_text garble utf8_encode
repair_text-garble text h = repair_from-garble [] text tt h
