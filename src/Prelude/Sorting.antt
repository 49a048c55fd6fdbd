-- ===== src/Prelude/Sorting.antt =====
-- Python's stable sort by falling keys, under a comparison that may be any test.
use mathlib.Core.Path.{◌≡◌}
use mathlib.Core.Logic.{inl, inr}
use mathlib.Core.Bool.{Bool, true, false}
use mathlib.Core.List.{List, [], ◌∷◌, Perm}
use mathlib.Core.List.Perm
use agentic_memory_stack_for.Prelude.Tests.{if◌then◌else◌, Bool-cases}
use agentic_memory_stack_for.Prelude.Lists.{All, All-map}

module _ {A F : Type 0} (below : F → F → Bool) (key : A → F) where
  -- Behind the keys that are greater, before the first that is not.
  unfoldable pub insert_by : A → List A → List A
  insert_by x [] = x ∷ []
  insert_by x (y ∷ ys) =
      let rest = insert_by x ys in if below (key x) (key y) then y ∷ rest else x ∷ y ∷ ys

  unfoldable pub sort_by : List A → List A
  unfolding insert_by
  sort_by [] = []
  sort_by (x ∷ xs) = insert_by x (sort_by xs)

  abbrev pub NotBelow : A → A → Type 0
  NotBelow x y = below (key x) (key y) ≡ false

  abbrev pub Descending : List A → Type 0
  Descending [] = Unit
  Descending (x ∷ xs) = All (NotBelow x) xs × Descending xs

  All-insert_by : (P : A → Type 0) (x : A) (xs : List A) → P x → All P xs → All P (insert_by x xs)
  unfolding insert_by
  All-insert_by P x [] p h = (p, tt)
  All-insert_by P x (y ∷ ys) p h = elim (Bool-cases (below (key x) (key y))) [
    | inl e ↦ rw e (h.0, All-insert_by P x ys p h.1)
    | inr e ↦ rw e (p, h)
  ]

  pub All-sort_by : (P : A → Type 0) (xs : List A) → All P xs → All P (sort_by xs)
  unfolding sort_by
  All-sort_by P [] h = tt
  All-sort_by P (x ∷ xs) h = All-insert_by P x (sort_by xs) h.0 (All-sort_by P xs h.1)

module _ {A F : Type 0} (below : F → F → Bool) (key : A → F) where
  insert_by-Perm : (x : A) (xs : List A) → Perm (insert_by below key x xs) (x ∷ xs)
  unfolding insert_by
  insert_by-Perm x [] = Perm.refl (x ∷ [])
  insert_by-Perm x (y ∷ ys) = elim (Bool-cases (below (key x) (key y))) [
    | inl e ↦ rw e (Perm.trans (Perm.cons y (insert_by-Perm x ys)) (Perm.swap x y ys))
    | inr e ↦ rw e (Perm.refl (x ∷ y ∷ ys))
  ]

  pub sort_by-Perm : (xs : List A) → Perm (sort_by below key xs) xs
  unfolding sort_by
  sort_by-Perm [] = Perm.nil
  sort_by-Perm (x ∷ xs) =
      Perm.trans (insert_by-Perm x (sort_by below key xs)) (Perm.cons x (sort_by-Perm xs))

-- A comparison of floats that are no NaN.
pub record IsOrder {F : Type 0} (below : F → F → Bool) : Type 0 where
  pub asym : (x y : F) → below x y ≡ true → below y x ≡ false
  pub trans : (x y z : F) → below x y ≡ false → below y z ≡ false → below x z ≡ false

module _ {A F : Type 0} (below : F → F → Bool) (key : A → F) (o : IsOrder below) where
  insert_by-Descending :
      (x : A) (xs : List A)
      → Descending below key xs
      → Descending below key (insert_by below key x xs)
  unfolding insert_by
  insert_by-Descending x [] h = (tt, tt)
  insert_by-Descending x (y ∷ ys) h = elim (Bool-cases (below (key x) (key y))) [
    | inl e ↦ rw e (
      All-insert_by below key (NotBelow below key y) x ys (o.asym (key x) (key y) e) h.0,
      insert_by-Descending x ys h.1,
    )
    | inr e ↦ rw e (
      (
        e,
        All-map (NotBelow below key y) (NotBelow below key x) ys
            (λ z g. o.trans (key x) (key y) (key z) e g) h.0,
      ),
      h,
    )
  ]

  pub sort_by-Descending : (xs : List A) → Descending below key (sort_by below key xs)
  unfolding sort_by
  sort_by-Descending [] = tt
  sort_by-Descending (x ∷ xs) = insert_by-Descending x _ (sort_by-Descending xs)
