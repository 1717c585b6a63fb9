-- ===== src/NumaZones/Sums.antt =====
-- The sum of counts, and when the 64 bits of the source hold it.
use fake_gpu_operator.Base.{
  ℕ, ◌+◌, ◌^◌, ◌≤◌, ◌<◌, ◌≡◌, refl, sym, ap, ◌∙◌, List, [], ◌∷◌, map, sum, arith,
}
use fake_gpu_operator.Base.Int.{
  ℤ, pos, ◌+ℤ◌, wrap_int64-fits, pos_part, neg_part, add_assoc_ℤ, zero_add_ℤ, add_zero_ℤ,
}
use fake_gpu_operator.NumaZones.{int_sum}

abbrev pub sum_ℤ : List ℤ → ℤ
sum_ℤ [] = pos 0
sum_ℤ (n ∷ ns) = n +ℤ sum_ℤ ns

abbrev pub positives : List ℤ → ℕ
positives [] = 0
positives (n ∷ ns) = pos_part n + positives ns

abbrev pub negatives : List ℤ → ℕ
negatives [] = 0
negatives (n ∷ ns) = neg_part n + negatives ns

-- No sum of some of the counts needs more than 64 bits.
abbrev pub Fits64 : List ℤ → Type 0
Fits64 ns = (positives ns < 2 ^ 63) × (negatives ns ≤ 2 ^ 63)

pos_part-add : (a b : ℤ) → pos_part (a +ℤ b) ≤ pos_part a + pos_part b
pos_part-add a b = ground arith

neg_part-add : (a b : ℤ) → neg_part (a +ℤ b) ≤ neg_part a + neg_part b
neg_part-add a b = ground arith

int_sum_from :
    (acc : ℤ) (ns : List ℤ)
    → pos_part acc + positives ns < 2 ^ 63
    → neg_part acc + negatives ns ≤ 2 ^ 63
    → int_sum acc ns ≡ acc +ℤ sum_ℤ ns
unfolding int_sum
int_sum_from acc [] p n = sym (add_zero_ℤ acc)
int_sum_from acc (x ∷ ns) p n =
    let up = pos_part-add acc x in
    let down = neg_part-add acc x in
    ap (λ a. int_sum a ns) (wrap_int64-fits (acc +ℤ x) (omega arith) (omega arith))
    ∙ int_sum_from (acc +ℤ x) ns (omega arith) (omega arith)
    ∙ add_assoc_ℤ acc x (sum_ℤ ns)

zero_plus_lt : (n m : ℕ) → n < m → 0 + n < m
zero_plus_lt n m h = omega arith

zero_plus_le : (n m : ℕ) → n ≤ m → 0 + n ≤ m
zero_plus_le n m h = omega arith

pub int_sum-sum_ℤ : (ns : List ℤ) → Fits64 ns → int_sum (pos 0) ns ≡ sum_ℤ ns
int_sum-sum_ℤ ns (p, n) =
    int_sum_from (pos 0) ns (zero_plus_lt _ _ p) (zero_plus_le _ _ n) ∙ zero_add_ℤ (sum_ℤ ns)

pub sum_ℤ-map_pos : (ns : List ℕ) → sum_ℤ (map pos ns) ≡ pos (sum ns)
sum_ℤ-map_pos [] = refl
sum_ℤ-map_pos (n ∷ ns) = rw (sum_ℤ-map_pos ns) (ground arith)

positives-map_pos : (ns : List ℕ) → positives (map pos ns) ≡ sum ns
positives-map_pos [] = refl
positives-map_pos (n ∷ ns) = rw (positives-map_pos ns) refl

negatives-map_pos : (ns : List ℕ) → negatives (map pos ns) ≡ 0
negatives-map_pos [] = refl
negatives-map_pos (n ∷ ns) = rw (negatives-map_pos ns) (omega arith)

pub map_pos-Fits64 : (ns : List ℕ) → sum ns < 2 ^ 63 → Fits64 (map pos ns)
map_pos-Fits64 ns h = (rw (positives-map_pos ns) h, rw (negatives-map_pos ns) (omega arith))
