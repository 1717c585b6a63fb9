-- ===== src/PodHandler/Util.antt =====
-- internal/status-updater/util/util.go, and the keys of internal/common/constants/constants.go that
-- the pod handlers read. The event filter of internal/status-updater/controllers/pod/controller.go.
use fake_gpu_operator.Base.{
  String, Bool, true, false, not, ◌&&◌, ◌||◌, none, some, [], ◌∷◌, ◌==◌, nat_beq,
}
use fake_gpu_operator.Base.Dict.{Dict, lookup}
use fake_gpu_operator.Base.Result.{Result, ok, panic}
use fake_gpu_operator.Base.Result
use fake_gpu_operator.Platform.{Platform, Pod, Container}

abbrev pub annotation_gpu_idx : String
annotation_gpu_idx = "runai-gpu"

abbrev pub annotation_gpu_fraction : String
annotation_gpu_fraction = "gpu-fraction"

abbrev pub annotation_pod_group_name : String
annotation_pod_group_name = "pod-group-name"

abbrev pub annotation_reservation_pod_gpu_idx : String
annotation_reservation_pod_gpu_idx = "run.ai/reserve_for_gpu_index"

abbrev pub label_gpu_group : String
label_gpu_group = "runai-gpu-group"

-- `_, ok := m[key]`
abbrev pub has : String → Dict String → Bool
has key m = elim (lookup key m) [ none ↦ false | some v ↦ true ]

-- m[key]
abbrev pub value : String → Dict String → String
value key m = elim (lookup key m) [ none ↦ "" | some v ↦ v ]

-- pod.Spec.Containers[0]
abbrev pub first_container : Pod → Result Container
first_container pod = elim pod.containers [ [] ↦ panic | c ∷ cs ↦ ok c ]

unfoldable pub is_gpu_reservation_pod : Platform → Pod → Bool
is_gpu_reservation_pod p pod = pod.namespace == p.resource_reservation_namespace

unfoldable pub is_shared_gpu_pod : Platform → Pod → Bool
unfolding is_gpu_reservation_pod
is_shared_gpu_pod p pod =
    not (is_gpu_reservation_pod p pod)
    && (has annotation_gpu_idx pod.annotations || has label_gpu_group pod.labels)

unfoldable pub is_dedicated_gpu_pod : Pod → Result Bool
is_dedicated_gpu_pod pod = Result.◌>>=◌ (first_container pod) λ c. ok (not (nat_beq c.gpu_limit 0))

unfoldable pub is_pod_running : Pod → Bool
is_pod_running pod = pod.phase == "Running"

unfoldable pub is_pod_terminated : Pod → Bool
is_pod_terminated pod = pod.phase == "Succeeded" || pod.phase == "Failed"

unfoldable pub is_pod_scheduled : Pod → Bool
is_pod_scheduled pod = not (pod.node_name == "")

unfoldable pub is_dra_pod : Pod → Bool
is_dra_pod pod = elim pod.resource_claims [ [] ↦ false | c ∷ cs ↦ true ]

-- The FilterFunc of the pod controller's event handler.
unfoldable pub watches_pod : Platform → Pod → Result Bool
unfolding is_shared_gpu_pod is_dedicated_gpu_pod is_pod_terminated is_pod_scheduled is_dra_pod
watches_pod p pod = elim (is_pod_scheduled pod && not (is_pod_terminated pod)) [
  | false ↦ ok false
  | true ↦
      Result.◌>>=◌ (is_dedicated_gpu_pod pod)
        λ dedicated. ok (dedicated || is_shared_gpu_pod p pod || is_dra_pod pod)
]
