-- ===== src/PairCache/Keys.antt =====
-- A contradiction has one key whichever text comes first.
use Prim.Native.Nat.{Ordering, compare as compare_ℕ}
use Prim.Native.Char.{code}
use Prim.Native.String.compare
use Prim.Native.String.{[], ◌∷◌, then as first_of, compare, ◌++◌}
use agentic_memory_stack_for.Prelude.{ℕ, String, ◌≡◌, refl, sym, ap, ◌∙◌, arith}
use text.Mathlib.TextEquality.{path_by_compare}
use agentic_memory_stack_for.PairCache.Store.{join_pair, sorted_pair, make_key}

flip : Ordering → Ordering
flip Ordering.lt = Ordering.gt
flip Ordering.eq = Ordering.eq
flip Ordering.gt = Ordering.lt

compare_ℕ-flip : (m n : ℕ) → compare_ℕ n m ≡ flip (compare_ℕ m n)
unfolding flip
compare_ℕ-flip m n = ground arith

then-flip : (o p : Ordering) → first_of (flip o) (flip p) ≡ flip (first_of o p)
unfolding flip
then-flip Ordering.lt p = refl
then-flip Ordering.eq p = refl
then-flip Ordering.gt p = refl

compare-flip : (s t : String) → compare t s ≡ flip (compare s t)
unfolding flip
compare-flip [] [] = refl
compare-flip [] (d ∷ t) = compare.cons-nil d t ∙ ap flip (sym (compare.nil-cons d t))
compare-flip (c ∷ s) [] = compare.nil-cons c s ∙ ap flip (sym (compare.cons-nil c s))
compare-flip (c ∷ s) (d ∷ t) =
    compare.cons-cons d c t s
    ∙ rw (compare_ℕ-flip (code c) (code d), compare-flip s t)
        (then-flip (compare_ℕ (code c) (code d)) (compare s t))
    ∙ ap flip (sym (compare.cons-cons c d s t))

join_pair-flip :
    (o : Ordering) (a b : String) → compare a b ≡ o → join_pair (flip o) b a ≡ join_pair o a b
unfolding join_pair flip
join_pair-flip Ordering.lt a b e = refl
join_pair-flip Ordering.eq a b e = rw (path_by_compare a b e) refl
join_pair-flip Ordering.gt a b e = refl

sorted_pair_comm : (a b : String) → sorted_pair b a ≡ sorted_pair a b
unfolding sorted_pair
sorted_pair_comm a b =
    ap (λ o. join_pair o b a) (compare-flip a b) ∙ join_pair-flip (compare a b) a b refl

-- A pair that is asked for a contradiction has one key, whichever of its texts comes first.
pub make_key_comm :
    (hash : String → String) (judge_mode model prompt_version text_a text_b : String)
    → make_key hash "contradiction" judge_mode model prompt_version text_b text_a
      ≡ make_key hash "contradiction" judge_mode model prompt_version text_a text_b
unfolding make_key
make_key_comm hash judge_mode model prompt_version text_a text_b =
    ap
      (λ p.
        "contradiction" ++ "|" ++ judge_mode ++ "|" ++ model ++ "|" ++ prompt_version ++ "|" ++ p)
      (sorted_pair_comm (hash text_a) (hash text_b))
