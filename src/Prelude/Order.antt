-- ===== src/Prelude/Order.antt =====
-- The order of texts: a comparison the other way round has the opposite answer.
use Prim.Native.Nat.compare as compare_ℕ
use Prim.Native.Nat.{ℕ, zero, suc, Ordering, compare as compare_ℕ}
use Prim.Native.Char.{code}
use Prim.Native.String.compare
use Prim.Native.String.{String, [], ◌∷◌, then, compare}
use mathlib.Core.Path.{◌≡◌, refl, sym, ap, ◌∙◌}
use mathlib.Core.Bool.{true, false, false≢true}
use text.Mathlib.Text.{is_lt}

abbrev swap : Ordering → Ordering
swap Ordering.lt = Ordering.gt
swap Ordering.eq = Ordering.eq
swap Ordering.gt = Ordering.lt

swap_numbers : (m n : ℕ) → compare_ℕ n m ≡ swap (compare_ℕ m n)
swap_numbers zero zero = compare_ℕ.zero-zero ∙ sym (ap swap compare_ℕ.zero-zero)
swap_numbers zero (suc n) = compare_ℕ.suc-zero n ∙ sym (ap swap (compare_ℕ.zero-suc n))
swap_numbers (suc m) zero = compare_ℕ.zero-suc m ∙ sym (ap swap (compare_ℕ.suc-zero m))
swap_numbers (suc m) (suc n) =
    compare_ℕ.suc-suc n m ∙ (swap_numbers m n ∙ sym (ap swap (compare_ℕ.suc-suc m n)))

swap-then : (o p : Ordering) → swap (then o p) ≡ then (swap o) (swap p)
swap-then Ordering.lt p = refl
swap-then Ordering.eq p = refl
swap-then Ordering.gt p = refl

compare-swap : (s t : String) → compare t s ≡ swap (compare s t)
compare-swap [] [] = compare.nil-nil ∙ sym (ap swap compare.nil-nil)
compare-swap [] (d ∷ t) = compare.cons-nil d t ∙ sym (ap swap (compare.nil-cons d t))
compare-swap (c ∷ s) [] = compare.nil-cons c s ∙ sym (ap swap (compare.cons-nil c s))
compare-swap (c ∷ s) (d ∷ t) =
    compare.cons-cons d c t s
    ∙ (ap (λ o. then o (compare t s)) (swap_numbers (code c) (code d))
        ∙ (ap (then (swap (compare_ℕ (code c) (code d)))) (compare-swap s t)
            ∙ (sym (swap-then (compare_ℕ (code c) (code d)) (compare s t))
                ∙ sym (ap swap (compare.cons-cons c d s t)))))

not_after : (o : Ordering) → is_lt o ≡ true → is_lt (swap o) ≡ false
not_after Ordering.lt h = refl
not_after Ordering.eq h = refl
not_after Ordering.gt h = absurd (false≢true h)

-- Of two texts, not each comes before the other.
pub compare_asym : (s t : String) → is_lt (compare s t) ≡ true → is_lt (compare t s) ≡ false
compare_asym s t h = ap is_lt (compare-swap s t) ∙ not_after (compare s t) h
