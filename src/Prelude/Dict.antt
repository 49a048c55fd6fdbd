-- ===== src/Prelude/Dict.antt =====
-- Python's `dict` with text keys, as an association list. The code never reads the order of keys.
use Prim.Native.String.{String}
use mathlib.Core.Path.{◌≡◌, refl, ap}
use mathlib.Core.Bool.{false}
use mathlib.Core.Option.{Option, none, some}
use mathlib.Core.List.{List, [], ◌∷◌}
use native.Mathlib.Omega.{arith}
use text.Mathlib.Text.{◌==◌}
use text.Mathlib.TextEquality.{eq_iff}
use agentic_memory_stack_for.Prelude.Tests.{if◌then◌else◌}
use agentic_memory_stack_for.Prelude.Lists.{or_else}
use agentic_memory_stack_for.Prelude.Text.{mem}

abbrev pub Dict {ℓ} : Type ℓ → Type ℓ
Dict V = List (String × V)

mem_of_eq : (i j : String) (ks : List String) → i ≡ j → mem i ks ≡ mem j ks
mem_of_eq i j ks e = ap (λ k. mem k ks) e

abbrev pub keys {ℓ} : {V : Type ℓ} → Dict V → List String
keys [] = []
keys ((k, v) ∷ d) = k ∷ keys d

module _ {ℓ} {V : Type ℓ} where
  -- `d.get(k)`
  unfoldable pub get : String → Dict V → Option V
  get k [] = none
  get k ((j, v) ∷ d) = if j == k then some v else get k d

  -- `d[k] = v`
  unfoldable pub put : String → V → Dict V → Dict V
  put k v [] = (k, v) ∷ []
  put k v ((j, w) ∷ d) = if j == k then (k, v) ∷ d else (j, w) ∷ put k v d

  -- `d.update(new)`
  unfoldable pub update : Dict V → Dict V → Dict V
  unfolding put
  update [] d = d
  update ((k, v) ∷ new) d = put k v (update new d)

  -- `{k: v for k, v in d.items() if k not in ks}`
  unfoldable pub without : List String → Dict V → Dict V
  without ks [] = []
  without ks ((j, v) ∷ d) = let rest = without ks d in if mem j ks then rest else (j, v) ∷ rest

  pub get-put :
      (k j : String) (v : V) (d : Dict V) → get j (put k v d) ≡ (if k == j then some v else get j d)
  unfolding get put
  get-put k j v [] = refl
  get-put k j v ((i, w) ∷ d) = ground (arith, eq_iff k j, eq_iff i k, eq_iff i j, get-put k j v d)

  pub get-update :
      (j : String) (new d : Dict V) → get j (update new d) ≡ or_else (get j new) (get j d)
  unfolding get update
  get-update j [] d = refl
  get-update j ((k, v) ∷ new) d = ground (arith, get-put k j v (update new d), get-update j new d)

  pub get-without :
      (j : String) (ks : List String) (d : Dict V)
      → get j (without ks d) ≡ (if mem j ks then none else get j d)
  unfolding get without
  get-without j ks [] = ground arith
  get-without j ks ((i, v) ∷ d) = ground (arith, get-without j ks d, eq_iff i j, mem_of_eq i j ks)

  -- A key that is not listed is not found.
  pub get_of_keys : (k : String) (d : Dict V) → mem k (keys d) ≡ false → get k d ≡ none
  unfolding get mem
  get_of_keys k [] h = refl
  get_of_keys k ((j, v) ∷ d) h = ground (arith, eq_iff k j, eq_iff j k, get_of_keys k d)
