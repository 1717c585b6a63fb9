-- ===== src/PodHandler/Gpus.antt =====
-- What the pod handlers do to one GPU of a node's topology.
use fake_gpu_operator.Base.{
  ℕ, zero, suc, String, Bool, ◌&&◌, ◌==◌, if◌then◌else◌, Option, none, some, List, [], ◌∷◌,
}
use fake_gpu_operator.Base.Dict.{insert}
use fake_gpu_operator.Base.Result.{Result, ok, panic, ◌>>=◌}
use fake_gpu_operator.Topology.{GpuUsageStatus, GpuStatus, GpuDetails, NodeTopology}
use fake_gpu_operator.Platform.{Pod}

-- gpu.Status.AllocatedBy.Pod == ""
abbrev pub is_free : GpuDetails → Bool
is_free gpu = gpu.status.allocated_by.pod == ""

abbrev pub is_occupied_by_pod : Pod → GpuDetails → Bool
is_occupied_by_pod pod gpu =
    gpu.status.allocated_by.namespace == pod.namespace && gpu.status.allocated_by.pod == pod.name

-- isGpuOccupiedByPod of the dedicated handlers, which compare the container too.
abbrev pub is_occupied_by_container : Pod → String → GpuDetails → Bool
is_occupied_by_container pod container gpu =
    is_occupied_by_pod pod gpu && gpu.status.allocated_by.container == container

-- topology.GpuStatus{}
abbrev pub empty_status : GpuStatus
empty_status = record {
  allocated_by = record { namespace = ""; pod = ""; container = "" };
  pod_gpu_usage_status = none;
}

abbrev pub allocate_to : Pod → String → GpuDetails → GpuDetails
allocate_to pod container gpu = record gpu {
  status = record gpu.status {
    allocated_by = record { namespace = pod.namespace; pod = pod.name; container = container };
  };
}

-- gpu.Status.PodGpuUsageStatus[uid] = usage: a write to a nil map panics.
unfoldable pub set_usage : String → GpuUsageStatus → GpuDetails → Result GpuDetails
set_usage uid usage gpu = elim gpu.status.pod_gpu_usage_status [
  | none ↦ panic
  | some m ↦ ok (record gpu {
    status = record gpu.status { pod_gpu_usage_status = some (insert uid usage m) };
  })
]

-- The same after `if gpu.Status.PodGpuUsageStatus == nil { … = make(…) }`.
unfoldable pub set_usage_made : String → GpuUsageStatus → GpuDetails → GpuDetails
set_usage_made uid usage gpu =
    let m = elim gpu.status.pod_gpu_usage_status as (λ _. _) [ none ↦ [] | some m ↦ m ] in
    record gpu { status = record gpu.status { pod_gpu_usage_status = some (insert uid usage m) } }

-- The loop that resets the status of each GPU that passes a test.
unfoldable pub release : (GpuDetails → Bool) → List GpuDetails → List GpuDetails
release test [] = []
release test (gpu ∷ gpus) =
    (if test gpu then record gpu { status = empty_status } else gpu) ∷ release test gpus

-- A step that may panic on each GPU that passes a test.
unfoldable pub update_where :
    (GpuDetails → Bool)
    → (GpuDetails → Result GpuDetails)
    → List GpuDetails
    → Result (List GpuDetails)
update_where test step [] = ok []
update_where test step (gpu ∷ gpus) = do
  gpu' ← (if test gpu then step gpu else ok gpu)
  gpus' ← update_where test step gpus
  ok (gpu' ∷ gpus')

-- nodeTopology.Gpus[idx], changed by a step; an index out of range panics.
unfoldable pub update_at :
    ℕ → (GpuDetails → Result GpuDetails) → List GpuDetails → Result (List GpuDetails)
update_at i step [] = panic
update_at zero step (gpu ∷ gpus) = do gpu' ← step gpu; ok (gpu' ∷ gpus)
update_at (suc i) step (gpu ∷ gpus) = do gpus' ← update_at i step gpus; ok (gpu ∷ gpus')

-- The index of the first GPU that passes a test.
unfoldable pub find_index : (GpuDetails → Bool) → List GpuDetails → Option ℕ
find_index test [] = none
find_index test (gpu ∷ gpus) =
    if test gpu then some 0 else elim (find_index test gpus) [ none ↦ none | some i ↦ some (suc i) ]

abbrev pub with_gpus : NodeTopology → List GpuDetails → NodeTopology
with_gpus topology gpus = record topology { gpus = gpus }
