-- ===== src/Base/Order.antt =====
-- The order of strings is total.
use Prim.Native.Nat.{ℕ, zero, suc, Ordering, compare as compare_ℕ}
use Prim.Native.Nat.compare as compare_ℕ
use Prim.Native.Char.{code}
use Prim.Native.String.{String, [], ◌∷◌, compare, then}
use Prim.Native.String.compare
use mathlib.Core.Path.{◌≡◌, refl, sym, ap, ◌∙◌}
use mathlib.Core.Bool.{true, false}
use mathlib.Core.Logic.{◌⊎◌, inl, inr}
use text.Mathlib.Text.{is_lt}
use text.Mathlib.TextEquality.{path_by_compare}
use fake_gpu_operator.Base.Text.{str_lt}

abbrev swap : Ordering → Ordering
swap Ordering.lt = Ordering.gt
swap Ordering.eq = Ordering.eq
swap Ordering.gt = Ordering.lt

swap-then : (o r : Ordering) → then (swap o) (swap r) ≡ swap (then o r)
swap-then Ordering.lt r = refl
swap-then Ordering.eq r = refl
swap-then Ordering.gt r = refl

swap-compare_ℕ : (m n : ℕ) → compare_ℕ n m ≡ swap (compare_ℕ m n)
swap-compare_ℕ zero zero = compare_ℕ.zero-zero ∙ sym (ap swap compare_ℕ.zero-zero)
swap-compare_ℕ zero (suc n) = compare_ℕ.suc-zero n ∙ sym (ap swap (compare_ℕ.zero-suc n))
swap-compare_ℕ (suc m) zero = compare_ℕ.zero-suc m ∙ sym (ap swap (compare_ℕ.suc-zero m))
swap-compare_ℕ (suc m) (suc n) =
    compare_ℕ.suc-suc n m ∙ swap-compare_ℕ m n ∙ sym (ap swap (compare_ℕ.suc-suc m n))

swap-compare : (s t : String) → compare t s ≡ swap (compare s t)
swap-compare [] [] = refl
swap-compare [] (d ∷ t) = compare.cons-nil d t ∙ sym (ap swap (compare.nil-cons d t))
swap-compare (c ∷ s) [] = compare.nil-cons c s ∙ sym (ap swap (compare.cons-nil c s))
swap-compare (c ∷ s) (d ∷ t) =
    compare.cons-cons d c t s
    ∙ ap (λ o. then o (compare t s)) (swap-compare_ℕ (code c) (code d))
    ∙ ap (then (swap (compare_ℕ (code c) (code d)))) (swap-compare s t)
    ∙ swap-then (compare_ℕ (code c) (code d)) (compare s t)
    ∙ sym (ap swap (compare.cons-cons c d s t))

pub str_lt-total : (s t : String) → str_lt s t ≡ false → (s ≡ t) ⊎ (str_lt t s ≡ true)
str_lt-total s t h = go (compare s t) refl
  where
    go : (o : Ordering) → compare s t ≡ o → (s ≡ t) ⊎ (str_lt t s ≡ true)
    go Ordering.lt e = cc
    go Ordering.eq e = inl (path_by_compare s t e)
    go Ordering.gt e = inr (ap is_lt (swap-compare s t ∙ ap swap e))
