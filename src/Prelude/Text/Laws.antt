-- ===== src/Prelude/Text/Laws.antt =====
-- `strip` and `lower` are idempotent and commute, so a normalised text is a fixed point of the
-- normalisation.
use Prim.Native.Char.{Char, code}
use Prim.Native.String.{String}
use text.Mathlib.TextEquality.{Char-path}
use mathlib.Core.Path.{◌≡◌, refl, ap}
use mathlib.Core.Logic.{◌⊎◌, inl, inr}
use mathlib.Core.Bool.{Bool, true, false, not, ◌&&◌}
use native.Mathlib.Omega.{arith}
use agentic_memory_stack_for.Prelude.Tests.{eqb, Bool-cases, &&-right}
use agentic_memory_stack_for.Prelude.Text.{
  space_code, is_space, is_empty, lstrip, rstrip, strip, translate, uppers, lowers, lower_char,
  lower,
}

-- No character of the text is a space.
solid : String → Bool
solid String.[] = true
solid (String.◌∷◌ c s) = not (is_space c) && solid s

space_of_code : (a c : Char) → eqb (code a) (code c) ≡ true → is_space a ≡ is_space c
unfolding is_space
space_of_code a c e = let same : code a ≡ code c = ground arith in ap space_code same

is_space-translate :
    (from to : String) (c : Char)
    → solid from ≡ true
    → solid to ≡ true
    → is_space (translate from to c) ≡ is_space c
unfolding translate solid
is_space-translate String.[] to c h k = refl
is_space-translate (String.◌∷◌ a from) String.[] c h k = refl
is_space-translate (String.◌∷◌ a from) (String.◌∷◌ b to) c h k =
    elim (Bool-cases (eqb (code a) (code c))) [
      | inl same ↦ rw same (ground (arith, space_of_code a c same))
      | inr other ↦ rw other (is_space-translate from to c (&&-right _ _ h) (&&-right _ _ k))
    ]

-- Each character of the text is a fixed point.
fixed : (Char → Char) → String → Bool
fixed f String.[] = true
fixed f (String.◌∷◌ c s) = eqb (code (f c)) (code c) && fixed f s

translate-cases :
    (f : Char → Char) (from to : String) (c : Char)
    → fixed f to ≡ true
    → (translate from to c ≡ c) ⊎ (f (translate from to c) ≡ translate from to c)
unfolding translate fixed
translate-cases f String.[] to c h = inl refl
translate-cases f (String.◌∷◌ a from) String.[] c h = inl refl
translate-cases f (String.◌∷◌ a from) (String.◌∷◌ b to) c h =
    elim (Bool-cases (eqb (code a) (code c))) [
      | inl same ↦
          let here : code (f b) ≡ code b = ground arith in inr (rw same (Char-path (f b) b here))
      | inr other ↦ rw other (translate-cases f from to c (&&-right _ _ h))
    ]

is_space-lower_char : (c : Char) → is_space (lower_char c) ≡ is_space c
unfolding lower_char is_space space_code solid
is_space-lower_char c = is_space-translate uppers lowers c refl refl

lowers-fixed : fixed lower_char lowers ≡ true
unfolding fixed lower_char translate
lowers-fixed = refl

lower_char_idem : (c : Char) → lower_char (lower_char c) ≡ lower_char c
unfolding lower_char
lower_char_idem c = elim (translate-cases lower_char uppers lowers c lowers-fixed) [
  | inl e ↦ ap lower_char e
  | inr e ↦ e
]

pub lower_idem : (s : String) → lower (lower s) ≡ lower s
unfolding lower
lower_idem String.[] = refl
lower_idem (String.◌∷◌ c s) = cc (lower_char_idem c, lower_idem s)

is_empty-lower : (s : String) → is_empty (lower s) ≡ is_empty s
unfolding lower
is_empty-lower String.[] = refl
is_empty-lower (String.◌∷◌ c s) = refl

lstrip-lower : (s : String) → lstrip is_space (lower s) ≡ lower (lstrip is_space s)
unfolding lower lstrip
lstrip-lower String.[] = refl
lstrip-lower (String.◌∷◌ c s) =
    rw (is_space-lower_char c)
      (elim (Bool-cases (is_space c)) [ inl e ↦ rw e (lstrip-lower s) | inr e ↦ rw e refl ])

rstrip-lower : (s : String) → rstrip is_space (lower s) ≡ lower (rstrip is_space s)
unfolding lower rstrip
rstrip-lower String.[] = refl
rstrip-lower (String.◌∷◌ c s) =
    rw (rstrip-lower s, is_empty-lower, is_space-lower_char c)
      (elim (Bool-cases (is_empty (rstrip is_space s) && is_space c)) [
        | inl e ↦ rw e refl
        | inr e ↦ rw e refl
      ])

pub strip-lower : (s : String) → strip (lower s) ≡ lower (strip s)
unfolding strip
strip-lower s = rw (lstrip-lower s) (rstrip-lower (lstrip is_space s))

-- `rstrip` leaves a text whose first character is no space in that shape.
rstrip_idem : (p : Char → Bool) (s : String) → rstrip p (rstrip p s) ≡ rstrip p s
unfolding rstrip
rstrip_idem p String.[] = refl
rstrip_idem p (String.◌∷◌ c s) = elim (Bool-cases (is_empty (rstrip p s) && p c)) [
  | inl e ↦ rw e refl
  | inr e ↦ rw e (rw (rstrip_idem p s, e))
]

-- The first character, if there is one, fails the test.
abbrev Starts : (Char → Bool) → String → Type 0
Starts p String.[] = Unit {0}
Starts p (String.◌∷◌ c s) = p c ≡ false

Starts-lstrip : (p : Char → Bool) (s : String) → Starts p (lstrip p s)
unfolding lstrip
Starts-lstrip p String.[] = tt
Starts-lstrip p (String.◌∷◌ c s) = elim (Bool-cases (p c)) [
  | inl e ↦ rw e (Starts-lstrip p s)
  | inr e ↦ rw e e
]

lstrip_of_Starts : (p : Char → Bool) (s : String) → Starts p s → lstrip p s ≡ s
unfolding lstrip
lstrip_of_Starts p String.[] h = refl
lstrip_of_Starts p (String.◌∷◌ c s) h = rw h refl

Starts-rstrip : (p : Char → Bool) (s : String) → Starts p s → Starts p (rstrip p s)
unfolding rstrip
Starts-rstrip p String.[] h = tt
Starts-rstrip p (String.◌∷◌ c s) h = elim (Bool-cases (is_empty (rstrip p s) && p c)) [
  | inl e ↦ rw e tt
  | inr e ↦ rw e h
]

pub strip_idem : (s : String) → strip (strip s) ≡ strip s
unfolding strip
strip_idem s =
    let start = Starts-rstrip is_space (lstrip is_space s) (Starts-lstrip is_space s) in
    rw (lstrip_of_Starts is_space _ start) (rstrip_idem is_space (lstrip is_space s))
