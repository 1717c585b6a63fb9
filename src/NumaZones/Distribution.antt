-- ===== src/NumaZones/Distribution.antt =====
-- The distribution of a node's GPUs over its zones.
use native.Mathlib.Nat.{div-add-mod}
use fake_gpu_operator.Base.{
  ℕ, zero, suc, ◌+◌, ◌-◌, ◌*◌, ◌/◌, ◌%◌, ◌≤◌, ◌≡◌, refl, sym, ap, ◌∙◌, ◌⊎◌, inl, inr, List, [], ◌∷◌,
  map, nat_beq, nat_beq→eq, length, length-map, sum, All, Bool-cases, arith,
}
use fake_gpu_operator.Base.Int.{ℤ, pos, eqb_ℤ, eqb_ℤ→eq}
use fake_gpu_operator.Base.Result.{ok, ok-injective}
use fake_gpu_operator.NumaZones.{int_sum, split_evenly, distribute_gpus}
use fake_gpu_operator.NumaZones.Sums.{sum_ℤ, Fits64, int_sum-sum_ℤ, sum_ℤ-map_pos}

sum-split_evenly :
    (base remainder start n : ℕ)
    → remainder ≤ start + n
    → sum (split_evenly base remainder start n) ≡ n * base + (remainder - start)
unfolding split_evenly
sum-split_evenly base remainder start zero h = omega arith
sum-split_evenly base remainder start (suc n) h =
    grind (arith, sum-split_evenly base remainder (suc start) n)

length-split_evenly :
    (base remainder start n : ℕ) → length (split_evenly base remainder start n) ≡ n
unfolding split_evenly
length-split_evenly base remainder start zero = refl
length-split_evenly base remainder start (suc n) =
    ap suc (length-split_evenly base remainder (suc start) n)

-- One of the two counts of an even split.
abbrev pub IsShare : ℕ → ℤ → Type 0
IsShare base n = (n ≡ pos base) ⊎ (n ≡ pos (base + 1))

split_evenly-IsShare :
    (base remainder start n : ℕ)
    → All (IsShare base) (map pos (split_evenly base remainder start n))
unfolding split_evenly
split_evenly-IsShare base remainder start zero = tt
split_evenly-IsShare base remainder start (suc n) =
    (ground arith, split_evenly-IsShare base remainder (suc start) n)

even_total : (g z : ℕ) → sum (split_evenly (g / suc z) (g % suc z) 0 (suc z)) ≡ g
even_total g z =
    sum-split_evenly (g / suc z) (g % suc z) 0 (suc z) (omega arith)
    ∙ grind (arith, div-add-mod g (suc z))

even_counts :
    (g z : ℕ)
    → (length (map pos (split_evenly (g / suc z) (g % suc z) 0 (suc z))) ≡ suc z)
      × (sum_ℤ (map pos (split_evenly (g / suc z) (g % suc z) 0 (suc z))) ≡ pos g)
even_counts g z = (
  length-map pos (split_evenly (g / suc z) (g % suc z) 0 (suc z))
      ∙ length-split_evenly (g / suc z) (g % suc z) 0 (suc z),
  sum_ℤ-map_pos (split_evenly (g / suc z) (g % suc z) 0 (suc z)) ∙ ap pos (even_total g z),
)

-- A distribution that is accepted has one count for each zone, and the counts add up to the number
-- of GPUs, unless the declared ones are so large that 64 bits do not hold their sums.
pub distribute_gpus_exact :
    (gpu_count zones : ℕ) (explicit ns : List ℤ)
    → Fits64 explicit
    → distribute_gpus gpu_count (pos zones) explicit ≡ ok ns
    → (length ns ≡ zones) × (sum_ℤ ns ≡ pos gpu_count)
unfolding distribute_gpus
distribute_gpus_exact g zero explicit ns fits h = cc
distribute_gpus_exact g (suc z) [] ns fits h = rw (← ok-injective h) (even_counts g z)
distribute_gpus_exact g (suc z) (x ∷ xs) ns fits h =
    elim (Bool-cases (nat_beq (length (x ∷ xs)) (suc z))) [
      | inr e ↦ cc (rw (e, distribute_gpus) at h)
      | inl e ↦ elim (Bool-cases (eqb_ℤ (int_sum (pos 0) (x ∷ xs)) (pos g))) [
        | inr e' ↦ cc (rw (e, e', distribute_gpus) at h)
        | inl e' ↦
            rw (← ok-injective (rw (e, e', distribute_gpus) at h))
              (nat_beq→eq _ _ e, sym (int_sum-sum_ℤ (x ∷ xs) fits) ∙ eqb_ℤ→eq _ _ e')
      ]
    ]

-- Where no counts were declared, the distribution is accepted and even: with at least one zone, each
-- zone gets the quotient of the GPUs and the zones, or one more, and all zones together get the GPUs.
pub distribute_gpus_even :
    (gpu_count zones : ℕ)
    → (ns : List ℤ) × (distribute_gpus gpu_count (pos (suc zones)) [] ≡ ok ns)
      × (length ns ≡ suc zones)
      × (sum_ℤ ns ≡ pos gpu_count)
      × All (IsShare (gpu_count / suc zones)) ns
unfolding distribute_gpus
distribute_gpus_even g z = (
  _,
  refl,
  (even_counts g z).0,
  (even_counts g z).1,
  split_evenly-IsShare (g / suc z) (g % suc z) 0 (suc z),
)
