-- ===== src/Base/TextOrder.antt =====
-- The order of texts by code points is total.
use Prim.Native.Char.{code}
use Prim.Native.Nat.compare as compare_ℕ
use Prim.Native.Nat.{ℕ, zero, suc, Ordering, compare as compare_ℕ}
use Prim.Native.String.compare
use Prim.Native.String.{String, compare, then}
use mathlib.Core.Bool.{true, false}
use mathlib.Core.Path.{◌≡◌, refl, sym}
use native.Mathlib.Omega.{arith}
use text.Mathlib.Text.{is_le}

swap : Ordering → Ordering
swap Ordering.lt = Ordering.gt
swap Ordering.eq = Ordering.eq
swap Ordering.gt = Ordering.lt

compare-swap : (m n : ℕ) → compare_ℕ n m ≡ swap (compare_ℕ m n)
unfolding swap
compare-swap zero zero = rw compare_ℕ.zero-zero
compare-swap zero (suc n) = rw (compare_ℕ.zero-suc n, compare_ℕ.suc-zero n)
compare-swap (suc m) zero = rw (compare_ℕ.zero-suc m, compare_ℕ.suc-zero m)
compare-swap (suc m) (suc n) = rw (compare_ℕ.suc-suc m n, compare_ℕ.suc-suc n m) (compare-swap m n)

swap-then : (o p : Ordering) → swap (then o p) ≡ then (swap o) (swap p)
unfolding swap
swap-then Ordering.lt p = refl
swap-then Ordering.eq p = refl
swap-then Ordering.gt p = refl

compare_texts-swap : (s t : String) → compare t s ≡ swap (compare s t)
unfolding swap
compare_texts-swap String.[] String.[] = rw compare.nil-nil
compare_texts-swap String.[] (String.◌∷◌ d t) = rw (compare.nil-cons d t, compare.cons-nil d t)
compare_texts-swap (String.◌∷◌ c s) String.[] = rw (compare.nil-cons c s, compare.cons-nil c s)
compare_texts-swap (String.◌∷◌ c s) (String.◌∷◌ d t) =
    rw
      (
        compare.cons-cons c d s t,
        compare.cons-cons d c t s,
        compare-swap (code c) (code d),
        compare_texts-swap s t,
      )
      (sym (swap-then (compare_ℕ (code c) (code d)) (compare s t)))

swap-le : (o : Ordering) → is_le o ≡ false → is_le (swap o) ≡ true
unfolding swap
swap-le Ordering.lt h = absurd (ground arith)
swap-le Ordering.eq h = absurd (ground arith)
swap-le Ordering.gt h = refl

-- Of two texts one is at most the other.
pub le_total : (s t : String) → is_le (compare s t) ≡ false → is_le (compare t s) ≡ true
le_total s t h = rw (compare_texts-swap s t) (swap-le (compare s t) h)
