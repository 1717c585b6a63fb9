-- ===== src/GpuMetrics/Gauges.antt =====
-- The gauges of a node are within bounds.
use fake_gpu_operator.Base.{
  ℕ, suc, ◌+◌, ◌-◌, ◌^◌, ◌≤◌, ◌≡◌, refl, ap, ap₂, ◌∙◌, String, List, [], ◌∷◌, length, All, sum,
  arith,
}
use fake_gpu_operator.Base.Int.{pos, ◌-ℤ◌, wrap_int64, wrap_int64-pos}
use fake_gpu_operator.Base.Result.{ok}
use fake_gpu_operator.Topology.{GpuDetails, NodeTopology}
use fake_gpu_operator.GpuUsage.{Sampler, fb_used}
use fake_gpu_operator.GpuUsage.Rates.{Samples}
use fake_gpu_operator.GpuUsage.Bounds.{
  AreUsages, utilization_bounds, fb_used_bounds, smaller, memories, AreUses,
}
use fake_gpu_operator.GpuMetrics.{Gauge, usages_of, gauge_of, export_gpus, export}

-- The usages of a GPU are within bounds, and those of up to 2^20 pods.
abbrev pub IsUsed : GpuDetails → Type 0
IsUsed gpu =
    AreUsages (usages_of gpu.status.pod_gpu_usage_status)
    × (length (usages_of gpu.status.pod_gpu_usage_status) ≤ 2 ^ 20)

-- The gauge of a GPU: as its utilization what its pods use, up to 100, and as its memory what they use
-- of `total`, and what is left.
pub record IsGauge (sampler : Sampler) (total : ℕ) (gpu : GpuDetails) (gauge : Gauge) : Type 0 where
  pub used : List ℕ
  pub are_uses : AreUses sampler (usages_of gpu.status.pod_gpu_usage_status) used
  pub utilization_is : gauge.gpu_utilization ≡ pos (smaller 100 (sum used))
  pub fb_used_is :
      gauge.gpu_fb_used ≡ pos (smaller total (memories (usages_of gpu.status.pod_gpu_usage_status)))
  pub free : ℕ
  pub fb_free_is : gauge.gpu_fb_free ≡ pos free
  pub memory_sum :
      smaller total (memories (usages_of gpu.status.pod_gpu_usage_status)) + free ≡ total

-- One gauge for each GPU, in their order.
pub data AreGauges (sampler : Sampler) (total : ℕ) : List GpuDetails → List Gauge → Type 0 where
  no_gpu : AreGauges sampler total [] []
  next_gpu :
      (gpu : GpuDetails) (gauge : Gauge) (gpus : List GpuDetails) (gauges : List Gauge)
      → IsGauge sampler total gpu gauge
      → AreGauges sampler total gpus gauges
      → AreGauges sampler total (gpu ∷ gpus) (gauge ∷ gauges)

smaller-le : (a b : ℕ) → smaller a b ≤ a
smaller-le a b = ground arith

sub_pos : (a b : ℕ) → b ≤ a → (pos a -ℤ pos b) ≡ pos (a - b)
sub_pos a b h = ground arith

module _ (sampler : Sampler) (k : Samples sampler) (digest : String → String) (node_name : String)
    (topology : NodeTopology) (total : ℕ) (memory_is : topology.gpu_memory ≡ pos total)
    (small : total ≤ 2 ^ 53) where
  gauge_of-IsGauge :
      (gpu_idx : ℕ) (gpu : GpuDetails) (ns : List ℕ)
      → IsUsed gpu
      → AreUses sampler (usages_of gpu.status.pod_gpu_usage_status) ns
      → IsGauge sampler total gpu
          (gauge_of sampler digest node_name topology gpu_idx gpu (pos (smaller 100 (sum ns))))
  unfolding gauge_of
  gauge_of-IsGauge gpu_idx gpu ns (all, few) uses =
      let usages = usages_of gpu.status.pod_gpu_usage_status in
      let used = smaller total (memories usages) in
      let le = smaller-le total (memories usages) in
      let used_is =
        ap (fb_used sampler usages) memory_is
        ∙ fb_used_bounds sampler k usages total all few small in
      record {
        used = ns;
        are_uses = uses;
        utilization_is = refl;
        fb_used_is = used_is;
        free = total - used;
        fb_free_is =
            ap wrap_int64 (ap₂ (λ a b. a -ℤ b) memory_is used_is ∙ sub_pos total used le)
            ∙ wrap_int64-pos (total - used) (omega arith);
        memory_sum = omega arith;
      }

  export_gpus-AreGauges :
      (gpu_idx : ℕ) (gpus : List GpuDetails)
      → All IsUsed gpus
      → (gauges : List Gauge) × (export_gpus sampler digest node_name topology gpu_idx gpus
          ≡ ok gauges)
        × AreGauges sampler total gpus gauges
  unfolding export_gpus
  export_gpus-AreGauges gpu_idx [] all = ([], refl, no_gpu)
  export_gpus-AreGauges gpu_idx (gpu ∷ gpus) (used, all) =
      let usages = usages_of gpu.status.pod_gpu_usage_status in
      let (ns, computed, uses) = utilization_bounds sampler k usages used.0 used.1 in
      let (gauges, exported, bounds) = export_gpus-AreGauges (suc gpu_idx) gpus all in
      let gauge =
        gauge_of sampler digest node_name topology gpu_idx gpu (pos (smaller 100 (sum ns))) in
      (
        gauge ∷ gauges,
        rw (computed, exported) refl,
        next_gpu gpu gauge gpus gauges (gauge_of-IsGauge gpu_idx gpu ns used uses) bounds,
      )

  -- If each GPU has up to 2^20 usages, whose ranges are ordered and within 0 and 100, and whose memory
  -- is at most 2^32 MiB, no rate is negative or above 2^32, and the GPUs' memory is at most 2^53 MiB, the
  -- export of the node succeeds and makes one gauge for each GPU, in their order: its utilization is
  -- what the GPU's pods use together, or 100 if that is more, the used memory is what they use, or all
  -- if that is more, and used and free memory sum up to the memory of the node's GPUs.
  pub export-IsGauge :
      All IsUsed topology.gpus
      → (gauges : List Gauge) × (export sampler digest node_name topology ≡ ok gauges)
        × AreGauges sampler total topology.gpus gauges
  unfolding export
  export-IsGauge all = export_gpus-AreGauges 0 topology.gpus all
