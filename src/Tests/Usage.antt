-- ===== src/Tests/Usage.antt =====
-- The gauges of a node with a GPU that two pods use, and one that no pod uses.
use fake_gpu_operator.Base.{
  ℕ, ◌-◌, ◌≡◌, refl, true, false, List, map, [], ◌∷◌, some, none, All, arith, sum,
}
use fake_gpu_operator.Base.Int.{pos, min_ℤ}
use fake_gpu_operator.Base.Result.{ok}
use fake_gpu_operator.Topology.{NodeTopology, GpuUsageStatus, PodGpuUsageStatusMap}
use fake_gpu_operator.GpuUsage.{Sampler, knative_utilization, utilization}
use fake_gpu_operator.GpuUsage.Rates.{Samples}
use fake_gpu_operator.GpuUsage.Bounds.{IsUsage, AreUsages, utilization_bounds, smaller, AreUses}
use fake_gpu_operator.GpuMetrics.{Gauge, export}
use fake_gpu_operator.GpuMetrics.Gauges.{AreGauges, IsUsed, export-IsGauge}

-- The largest draw, and an answer with a time and a rate. A value is a number or an array of them.
abbrev sampler : Sampler
sampler = record {
  Json = List ℕ;
  intn = λ uid n. n - 1;
  prometheus_base_url = "http://prometheus-operated.runai:9090";
  encode_query = λ q. q;
  fetch = λ url. some "answer";
  result_values = λ text. (1700000000 ∷ 3 ∷ []) ∷ [];
  array = λ value. map (λ n. n ∷ []) value;
  int_of_float = λ value. elim value [ [] ↦ pos 0 | n ∷ rest ↦ pos n ];
  min_float = min_ℤ;
}

rate_measured : knative_utilization sampler "pod-2" ≡ pos 3
unfolding knative_utilization
rate_measured = refl

two_elements :
    (value time rate : List ℕ) (values : List (List ℕ)) (more : List (List ℕ))
    → sampler.result_values "answer" ≡ value ∷ values
    → sampler.array value ≡ time ∷ rate ∷ more
    → rate ≡ 3 ∷ []
two_elements value time rate values more v a = cc

samples : Samples sampler
samples = record {
  intn_below = λ uid n. omega arith;
  rate_small = λ uid body value time rate values more f v a.
      let is = two_elements value time rate values more v a in (3, rw is refl, omega arith);
  exact = λ a b h h'. refl;
}

abbrev usage : GpuUsageStatus
usage = record {
  utilization = record { min = pos 80; max = pos 100 };
  fb_used = pos 30000;
  use_knative_utilization = false;
}

abbrev knative_usage : GpuUsageStatus
knative_usage = record usage { use_knative_utilization = true }

abbrev usages : PodGpuUsageStatusMap
usages = ("pod-1", usage) ∷ ("pod-2", knative_usage) ∷ []

abbrev topology : NodeTopology
topology = record {
  gpu_memory = pos 40960;
  gpu_product = "NVIDIA-A100";
  driver_version = "";
  cuda_version = "";
  gpus =
      record {
        id = "GPU-1";
        status = record {
          allocated_by = record { namespace = ""; pod = ""; container = "" };
          pod_gpu_usage_status = some usages;
        };
      }
      ∷ record {
        id = "GPU-2";
        status = record {
          allocated_by = record { namespace = ""; pod = ""; container = "" };
          pod_gpu_usage_status = none;
        };
      }
      ∷ [];
  mig_strategy = "";
  other_devices = [];
}

usage-IsUsage : IsUsage usage
usage-IsUsage = record {
  low = 80;
  high = 100;
  memory = 30000;
  low_is = refl;
  high_is = refl;
  memory_is = refl;
  ordered = omega arith;
  small = omega arith;
  fits = omega arith;
}

knative_usage-IsUsage : IsUsage knative_usage
knative_usage-IsUsage = record {
  low = 80;
  high = 100;
  memory = 30000;
  low_is = refl;
  high_is = refl;
  memory_is = refl;
  ordered = omega arith;
  small = omega arith;
  fits = omega arith;
}

usages-AreUsages : AreUsages usages
usages-AreUsages = (usage-IsUsage, (knative_usage-IsUsage, tt))

gpus-IsUsed : All IsUsed topology.gpus
gpus-IsUsed = ((usages-AreUsages, omega arith), ((tt, omega arith), tt))

utilization_bounds_example :
    (ns : List ℕ) × (utilization sampler usages ≡ ok (pos (smaller 100 (sum ns))))
    × AreUses sampler usages ns
utilization_bounds_example =
    utilization_bounds sampler samples usages usages-AreUsages (omega arith)

export-IsGauge_example :
    (gauges : List Gauge) × (export sampler (λ s. "4f2a1b") "node-1" topology ≡ ok gauges)
    × AreGauges sampler 40960 topology.gpus gauges
export-IsGauge_example =
    export-IsGauge sampler samples (λ s. "4f2a1b") "node-1" topology 40960 refl (omega arith)
      gpus-IsUsed
