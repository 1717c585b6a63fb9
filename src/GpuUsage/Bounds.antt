-- ===== src/GpuUsage/Bounds.antt =====
-- The bounds of the utilization and of the memory of a GPU.
use fake_gpu_operator.Base.{
  ℕ, suc, ◌+◌, ◌-◌, ◌*◌, ◌^◌, ◌≤◌, ◌<◌, ◌≡◌, refl, ap, ap₂, ◌∙◌, subst, String, List, false, inl,
  inr, [], ◌∷◌, length, All, arith, Bool-cases, if◌then◌else◌, ltb, true, sum,
}
use fake_gpu_operator.Base.Int.{pos, ◌+ℤ◌, ◌-ℤ◌, eqb_ℤ, wrap_int64, min_ℤ, wrap_int64-pos, pos_part}
use fake_gpu_operator.Base.Result.{ok}
use fake_gpu_operator.Topology.{Range, GpuUsageStatus, PodGpuUsageStatusMap}
use fake_gpu_operator.GpuUsage.{
  Sampler, random, used_by, utilization_sum, utilization, fb_used_sum, fb_used,
}
use fake_gpu_operator.GpuUsage.Rates.{Samples, IsRate, knative_utilization-IsRate}

-- An ordered range of percents up to 100, and a bounded amount of memory.
pub record IsUsage (usage : GpuUsageStatus) : Type 0 where
  pub low : ℕ
  pub high : ℕ
  pub memory : ℕ
  pub low_is : usage.utilization.min ≡ pos low
  pub high_is : usage.utilization.max ≡ pos high
  pub memory_is : usage.fb_used ≡ pos memory
  pub ordered : low ≤ high
  pub small : high ≤ 100
  pub fits : memory ≤ 2 ^ 32

abbrev pub AreUsages : PodGpuUsageStatusMap → Type 0
AreUsages usages = All (λ entry. IsUsage entry.1) usages

add_wrap : (a b : ℕ) → a + b < 2 ^ 63 → wrap_int64 (pos a +ℤ pos b) ≡ pos (a + b)
add_wrap a b h = ap wrap_int64 (ground arith) ∙ wrap_int64-pos (a + b) h

difference : (a g : ℕ) → (pos (a + suc g) -ℤ pos a) ≡ pos (suc g)
difference a g = ground arith

different : (a b : ℕ) → a ≤ b → eqb_ℤ (pos a) (pos b) ≡ false → b ≡ a + suc (b - a - 1)
different a b h e = ground arith

abbrev pub smaller : ℕ → ℕ → ℕ
smaller a b = if ltb b a then b else a

min_pos : (a b : ℕ) → min_ℤ (pos a) (pos b) ≡ pos (smaller a b)
min_pos a b = ground arith

-- What a pod uses: its rate, or a number in its range.
pub data IsUse (sampler : Sampler) (uid : String) (usage : GpuUsageStatus) : ℕ → Type 0 where
  measured :
      (n : ℕ)
      → usage.use_knative_utilization ≡ true
      → IsRate sampler uid n
      → IsUse sampler uid usage n
  in_range :
      (n low high : ℕ)
      → usage.use_knative_utilization ≡ false
      → usage.utilization.min ≡ pos low
      → usage.utilization.max ≡ pos high
      → low ≤ n
      → n ≤ high
      → IsUse sampler uid usage n

-- What each of the pods uses.
pub data AreUses (sampler : Sampler) : PodGpuUsageStatusMap → List ℕ → Type 0 where
  no_pod : AreUses sampler [] []
  next_pod :
      (uid : String) (usage : GpuUsageStatus) (rest : PodGpuUsageStatusMap) (n : ℕ) (ns : List ℕ)
      → IsUse sampler uid usage n
      → AreUses sampler rest ns
      → AreUses sampler ((uid, usage) ∷ rest) (n ∷ ns)

abbrev pub memories : PodGpuUsageStatusMap → ℕ
memories [] = 0
memories ((uid, usage) ∷ rest) = pos_part usage.fb_used + memories rest

module _ (sampler : Sampler) (k : Samples sampler) where
  -- A draw from a range that is not a point.
  random-gap :
      (uid : String) (low g : ℕ)
      → low + suc g ≤ 100
      → eqb_ℤ (pos low) (pos (low + suc g)) ≡ false
      → (n : ℕ) × (random sampler uid (record { min = pos low; max = pos (low + suc g) })
          ≡ ok (pos n))
        × (low ≤ n)
        × (n ≤ low + suc g)
  unfolding random
  random-gap uid low g small e =
      let below = k.intn_below uid g in
      let drawn = sampler.intn uid (suc g) in
      (
        low + drawn,
        rw
            (
              e,
              difference low g,
              wrap_int64-pos (suc g) (omega arith),
              add_wrap low drawn (omega arith),
            )
            refl,
        omega arith,
        omega arith,
      )

  random-range :
      (uid : String) (range : Range) (low high : ℕ)
      → range.min ≡ pos low
      → range.max ≡ pos high
      → low ≤ high
      → high ≤ 100
      → (n : ℕ) × (random sampler uid range ≡ ok (pos n)) × (low ≤ n) × (n ≤ high)
  unfolding random
  random-range uid range low high l h ordered small =
      elim (Bool-cases (eqb_ℤ (pos low) (pos high))) [
        | inl e ↦ (low, rw (l, h, e) refl, omega arith, ordered)
        | inr e ↦
            let gap = different low high ordered e in
            let (n, drawn, above, below) =
              random-gap uid low (high - low - 1) (omega arith)
                (subst (λ b. eqb_ℤ (pos low) (pos b) ≡ false) gap e) in
            (
              n,
              ap (λ (r : Range). random sampler uid r)
                    (ap₂ (λ a b. record { min = a; max = b }) l (h ∙ ap pos gap))
                  ∙ drawn,
              above,
              omega arith,
            )
      ]

  used_by-IsUse :
      (uid : String) (usage : GpuUsageStatus)
      → IsUsage usage
      → (n : ℕ) × (used_by sampler uid usage ≡ ok (pos n))
        × (n ≤ 2 ^ 32)
        × IsUse sampler uid usage n
  used_by-IsUse uid usage i = elim (Bool-cases usage.use_knative_utilization) [
    | inl e ↦
        let (n, is, small, rate) = knative_utilization-IsRate sampler k uid in
        (n, rw (e, is) refl, small, measured n e rate)
    | inr e ↦
        let (n, is, above, below) =
          random-range uid usage.utilization i.low i.high i.low_is i.high_is i.ordered i.small in
        let small = i.small in
        (n, rw e is, omega arith, in_range n i.low i.high e i.low_is i.high_is above below)
  ]

  utilization_sum-AreUses :
      (usages : PodGpuUsageStatusMap) (a : ℕ)
      → AreUsages usages
      → a + length usages * 2 ^ 32 ≤ 2 ^ 53
      → (ns : List ℕ) × (utilization_sum sampler usages (pos a) ≡ ok (pos (a + sum ns)))
        × AreUses sampler usages ns
        × (a + sum ns ≤ 2 ^ 53)
  unfolding utilization_sum
  utilization_sum-AreUses [] a all small =
      ([], ap (λ n. ok (pos n)) (omega arith), no_pod, omega arith)
  utilization_sum-AreUses ((uid, usage) ∷ rest) a (i, all) small =
      let (used, e, below, one) = used_by-IsUse uid usage i in
      let (ns, summed, uses, under) = utilization_sum-AreUses rest (a + used) all (omega arith) in
      (
        used ∷ ns,
        rw (e, add_wrap a used (omega arith)) (summed ∙ ap (λ n. ok (pos n)) (omega arith)),
        next_pod uid usage rest used ns one uses,
        omega arith,
      )

  -- For up to 2^20 pods whose ranges are ordered and within 0 and 100, and whose memory is at most 2^32
  -- MiB, and for rates that are not negative and up to 2^32, the utilization of a GPU is computed
  -- without a panic: it is the sum of what its pods use, or 100 if that is more, where a pod uses the
  -- rate that is measured for it, or a number in its range.
  pub utilization_bounds :
      (usages : PodGpuUsageStatusMap)
      → AreUsages usages
      → length usages ≤ 2 ^ 20
      → (ns : List ℕ) × (utilization sampler usages ≡ ok (pos (smaller 100 (sum ns))))
        × AreUses sampler usages ns
  unfolding utilization
  utilization_bounds usages all few =
      let (ns, summed, uses, under) = utilization_sum-AreUses usages 0 all (omega arith) in
      let start : 0 + sum ns ≡ sum ns = omega arith in
      (
        ns,
        rw (summed ∙ ap (λ n. ok (pos n)) start) (
            ap ok
              (k.exact 100 (sum ns) (omega arith) (omega (arith, under)) ∙ min_pos 100 (sum ns))),
        uses,
      )

  fb_used_sum-memories :
      (usages : PodGpuUsageStatusMap) (a : ℕ)
      → AreUsages usages
      → a + length usages * 2 ^ 32 ≤ 2 ^ 53
      → (fb_used_sum sampler usages (pos a) ≡ pos (a + memories usages))
        × (a + memories usages ≤ 2 ^ 53)
  unfolding fb_used_sum
  fb_used_sum-memories [] a all small = (ap pos (omega arith), omega arith)
  fb_used_sum-memories ((uid, usage) ∷ rest) a (i, all) small =
      let fits = i.fits in
      let (summed, under) = fb_used_sum-memories rest (a + i.memory) all (omega arith) in
      (
        rw (i.memory_is, add_wrap a i.memory (omega arith)) (summed ∙ ap pos (omega arith)),
        rw i.memory_is (omega arith),
      )

  -- Under the same bounds the memory that is used is that of the pods together, or all there is.
  pub fb_used_bounds :
      (usages : PodGpuUsageStatusMap) (total : ℕ)
      → AreUsages usages
      → length usages ≤ 2 ^ 20
      → total ≤ 2 ^ 53
      → fb_used sampler usages (pos total) ≡ pos (smaller total (memories usages))
  unfolding fb_used
  fb_used_bounds usages total all few small =
      let (summed, under) = fb_used_sum-memories usages 0 all (omega arith) in
      ap (sampler.min_float (pos total)) (summed ∙ ap pos (omega arith))
      ∙ k.exact total (memories usages) small (omega (arith, under))
      ∙ min_pos total (memories usages)
