-- ===== src/GpuMetrics.antt =====
-- internal/status-exporter/export/metrics: exporter.go and metrics_labels_builder.go, the gauges of a
-- node. A gauge's value is the integer that is converted to a float64.
pub mod Gauges
use Prim.Native.String
use fake_gpu_operator.Base.{ℕ, suc, String, Option, none, some, List, [], ◌∷◌}
use fake_gpu_operator.Base.Int.{ℤ, ◌-ℤ◌, wrap_int64}
use fake_gpu_operator.Base.Dict.{Dict}
use fake_gpu_operator.Base.Text.{decimal}
use fake_gpu_operator.Base.Result.{Result, ok, ◌>>=◌}
use fake_gpu_operator.Topology.{GpuDetails, NodeTopology, PodGpuUsageStatusMap}
use fake_gpu_operator.GpuUsage.{Sampler, utilization, fb_used}

pub record Gauge : Type 0 where
  pub labels : Dict String
  pub gpu_utilization : ℤ
  pub gpu_fb_used : ℤ
  pub gpu_fb_free : ℤ

-- A nil map has no entries.
abbrev pub usages_of : Option PodGpuUsageStatusMap → PodGpuUsageStatusMap
usages_of none = []
usages_of (some usages) = usages

-- `digest` is the first three bytes of a SHA-1 sum in hexadecimal.
module _ (sampler : Sampler) (digest : String → String) where
  unfoldable pub generate_fake_hostname : String → String
  generate_fake_hostname node_name = String.◌++◌ "nvidia-dcgm-exporter-" (digest node_name)

  unfoldable pub build_gpu_metric_labels : String → ℕ → GpuDetails → NodeTopology → Dict String
  unfolding generate_fake_hostname
  build_gpu_metric_labels node_name gpu_idx gpu topology =
      ("gpu", decimal gpu_idx)
      ∷ ("UUID", gpu.id)
      ∷ ("device", String.◌++◌ "nvidia" (decimal gpu_idx))
      ∷ ("modelName", topology.gpu_product)
      ∷ ("Hostname", generate_fake_hostname node_name)
      ∷ ("namespace", gpu.status.allocated_by.namespace)
      ∷ ("pod", gpu.status.allocated_by.pod)
      ∷ ("container", gpu.status.allocated_by.container)
      ∷ []

  module _ (node_name : String) (topology : NodeTopology) where
    -- The gauges of one GPU, once its utilization was drawn.
    unfoldable pub gauge_of : ℕ → GpuDetails → ℤ → Gauge
    unfolding build_gpu_metric_labels
    gauge_of gpu_idx gpu used =
        let fb = fb_used sampler (usages_of gpu.status.pod_gpu_usage_status) topology.gpu_memory in
        record {
          labels = build_gpu_metric_labels node_name gpu_idx gpu topology;
          gpu_utilization = used;
          gpu_fb_used = fb;
          gpu_fb_free = wrap_int64 (topology.gpu_memory -ℤ fb);
        }

    -- The loop over the GPUs.
    unfoldable pub export_gpus : ℕ → List GpuDetails → Result (List Gauge)
    unfolding gauge_of
    export_gpus gpu_idx [] = ok []
    export_gpus gpu_idx (gpu ∷ gpus) =
        utilization sampler (usages_of gpu.status.pod_gpu_usage_status) >>= λ used.
        export_gpus (suc gpu_idx) gpus >>= λ gauges. ok (gauge_of gpu_idx gpu used ∷ gauges)

  -- What there is after the gauges were reset and set.
  unfoldable pub export : String → NodeTopology → Result (List Gauge)
  unfolding export_gpus
  export node_name topology = export_gpus node_name topology 0 topology.gpus
