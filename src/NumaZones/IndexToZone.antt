-- ===== src/NumaZones/IndexToZone.antt =====
-- Which zone each GPU index is in, and when the table cannot be built.
use fake_gpu_operator.Base.{
  ℕ, suc, ◌+◌, ◌-◌, ◌^◌, ◌<◌, ◌≡◌, refl, true, inl, inr, List, [], ◌∷◌, ◌++◌, map, leb, replicate,
  sum, any, Bool-cases, arith,
}
use fake_gpu_operator.Base.Int.{ℤ, pos, negsuc, is_neg, pos_part, neg_part}
use fake_gpu_operator.Base.Result.{Result, ok, panic}
use fake_gpu_operator.NumaZones.{write_zones, gpu_index_to_zone}
use fake_gpu_operator.NumaZones.Sums.{
  sum_ℤ, positives, negatives, Fits64, int_sum-sum_ℤ, sum_ℤ-map_pos, map_pos-Fits64,
}

-- Zone by zone, the zone's number once for each of its GPUs.
abbrev pub zones_from : ℕ → List ℕ → List ℕ
zones_from zone [] = []
zones_from zone (n ∷ ns) = replicate n zone ++ zones_from (suc zone) ns

write_zones-zones_from :
    (zone : ℕ) (ns : List ℕ) → write_zones zone (map pos ns) (sum ns) ≡ ok (zones_from zone ns)
unfolding write_zones
write_zones-zones_from zone [] = refl
write_zones-zones_from zone (n ∷ ns) =
    let fits : leb n (n + sum ns) ≡ true = ground arith in
    let left : n + sum ns - n ≡ sum ns = omega arith in
    rw (fits, write_zones, left, write_zones-zones_from (suc zone) ns) refl

sum_ℤ_parts :
    (ns : List ℤ) → pos_part (sum_ℤ ns) + negatives ns ≡ neg_part (sum_ℤ ns) + positives ns
sum_ℤ_parts [] = refl
sum_ℤ_parts (n ∷ ns) = ground (arith, sum_ℤ_parts ns)

negatives-pos : (ns : List ℤ) → any is_neg ns ≡ true → 0 < negatives ns
negatives-pos [] h = cc
negatives-pos (pos n ∷ ns) h = omega (arith, negatives-pos ns h)
negatives-pos (negsuc n ∷ ns) h = omega arith

write_zones-panic :
    (zone : ℕ) (ns : List ℤ) (left : ℕ) → left < positives ns → write_zones zone ns left ≡ panic
unfolding write_zones
write_zones-panic zone [] left h = absurd (omega arith)
write_zones-panic zone (negsuc n ∷ ns) left h = write_zones-panic (suc zone) ns left (omega arith)
write_zones-panic zone (pos n ∷ ns) left h = elim (Bool-cases (leb n left)) [
  | inr e ↦ rw (e, write_zones) refl
  | inl e ↦ rw (e, write_zones, write_zones-panic (suc zone) ns (left - n) (ground arith)) refl
]

-- With counts that are not negative, and whose sum 64 bits hold, the table lists, zone by zone, the
-- zone's number once for each of its GPUs.
pub gpu_index_to_zone_exact :
    (ns : List ℕ) → sum ns < 2 ^ 63 → gpu_index_to_zone (map pos ns) ≡ ok (zones_from 0 ns)
unfolding gpu_index_to_zone
gpu_index_to_zone_exact ns h =
    rw (int_sum-sum_ℤ (map pos ns) (map_pos-Fits64 ns h), sum_ℤ-map_pos ns, gpu_index_to_zone)
      (write_zones-zones_from 0 ns)

-- With a negative count the table cannot be built, unless 64 bits do not hold a sum of the counts: an
-- index runs out of range, or the length is negative.
pub gpu_index_to_zone-panic :
    (ns : List ℤ) → Fits64 ns → any is_neg ns ≡ true → gpu_index_to_zone ns ≡ panic
unfolding gpu_index_to_zone
gpu_index_to_zone-panic ns fits h =
    rw (int_sum-sum_ℤ ns fits, gpu_index_to_zone) (go (sum_ℤ ns) (sum_ℤ_parts ns))
  where
    go :
        (total : ℤ)
        → pos_part total + negatives ns ≡ neg_part total + positives ns
        → ◌≡◌ {A = Result (List ℕ)}
            (elim total [ negsuc n ↦ panic | pos n ↦ write_zones 0 ns n ])
            panic
    go (negsuc n) e = refl
    go (pos n) e = write_zones-panic 0 ns n (omega (arith, negatives-pos ns h))
