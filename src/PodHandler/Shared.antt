-- ===== src/PodHandler/Shared.antt =====
-- internal/status-updater/handlers/pod/shared_gpu_pod_handler.go: pods that share the GPU which a
-- reservation pod holds for them.
use fake_gpu_operator.Base.{ℕ, String, Option, none, some, ◌==◌, if◌then◌else◌, List, find}
use fake_gpu_operator.Base.Dict.{erase}
use fake_gpu_operator.Base.Result.{
  Result, ok, err, panic, ◌>>=◌, no_reservation_pod, no_annotation, bad_number,
}
use fake_gpu_operator.Base.Text.{atoi}
use fake_gpu_operator.Topology.{GpuDetails, NodeTopology}
use fake_gpu_operator.Platform.{Platform, Pod}
use fake_gpu_operator.PodHandler.Util.{
  value, is_shared_gpu_pod, annotation_gpu_idx, annotation_reservation_pod_gpu_idx, label_gpu_group,
}
use fake_gpu_operator.PodHandler.Usage.{calculate_usage}
use fake_gpu_operator.PodHandler.Gpus.{set_usage, update_at, find_index, with_gpus}

-- delete(gpu.Status.PodGpuUsageStatus, uid), which does nothing to a nil map.
unfoldable pub delete_usage : String → GpuDetails → Result GpuDetails
delete_usage uid gpu = elim gpu.status.pod_gpu_usage_status [
  | none ↦ ok gpu
  | some m ↦
      ok (record gpu { status = record gpu.status { pod_gpu_usage_status = some (erase uid m) } })
]

abbrev pub name_of : Option Pod → Result String
name_of none = err no_reservation_pod
name_of (some pod) = ok pod.name

-- The second lookup is tried where the first failed. The two errors are joined by the source; which
-- they were is not kept here.
abbrev pub or_else : Result String → Result String → Result String
or_else (ok name) second = ok name
or_else panic second = panic
or_else (err _) (ok name) = ok name
or_else (err _) panic = panic
or_else (err _) (err _) = err no_reservation_pod

module _ (p : Platform) (pod : Pod) where
  unfoldable pub get_node_reservation_pods : p.State → Result (List Pod)
  get_node_reservation_pods s = p.list_pods s p.resource_reservation_namespace pod.node_name

  unfoldable pub by_runai_gpu_annotation : p.State → Result String
  unfolding get_node_reservation_pods
  by_runai_gpu_annotation s =
      let runai_gpu = value annotation_gpu_idx pod.annotations in
      if runai_gpu == "" then err no_annotation else elim (atoi runai_gpu) [
        | none ↦ err bad_number
        | some idx ↦ do
          pods ← get_node_reservation_pods s
          name_of
              (find (λ r. value annotation_reservation_pod_gpu_idx r.annotations == runai_gpu) pods)
      ]

  unfoldable pub by_runai_gpu_group_label : p.State → Result String
  unfolding get_node_reservation_pods
  by_runai_gpu_group_label s =
      let group = value label_gpu_group pod.labels in
      if group == "" then err no_annotation else (do
        pods ← get_node_reservation_pods s
        name_of (find (λ r. value label_gpu_group r.labels == group) pods))

  unfoldable pub get_matching_reservation_pod_name : p.State → Result String
  unfolding by_runai_gpu_annotation by_runai_gpu_group_label
  get_matching_reservation_pod_name s =
      or_else (by_runai_gpu_annotation s) (by_runai_gpu_group_label s)

  -- `none` is the index -1, which the source returns without an error for an empty name.
  unfoldable pub get_matching_reservation_pod_gpu_idx : NodeTopology → p.State → Result (Option ℕ)
  unfolding get_matching_reservation_pod_name find_index
  get_matching_reservation_pod_gpu_idx topology s = do
    name ← get_matching_reservation_pod_name s
    (if name == ""
        then ok none
        else elim (find_index (λ gpu. gpu.status.allocated_by.pod == name) topology.gpus) [
          | none ↦ err no_reservation_pod
          | some i ↦ ok (some i)
        ])

  -- nodeTopology.Gpus[idx] at the matching index; -1 panics.
  unfoldable pub at_reservation_gpu :
      (GpuDetails → Result GpuDetails) → NodeTopology → p.State → Result NodeTopology
  unfolding get_matching_reservation_pod_gpu_idx update_at
  at_reservation_gpu step topology s = do
    idx ← get_matching_reservation_pod_gpu_idx topology s
    elim idx [
      | none ↦ panic
      | some i ↦ do gpus ← update_at i step topology.gpus; ok (with_gpus topology gpus)
    ]

  unfoldable pub calculate_and_set_pod_gpu_usage_status :
      NodeTopology → p.State → Result NodeTopology
  unfolding at_reservation_gpu set_usage
  calculate_and_set_pod_gpu_usage_status topology s =
      at_reservation_gpu (set_usage pod.uid (calculate_usage p s pod topology.gpu_memory)) topology
        s

  unfoldable pub handle_shared_gpu_pod_addition : NodeTopology → p.State → Result NodeTopology
  unfolding is_shared_gpu_pod calculate_and_set_pod_gpu_usage_status
  handle_shared_gpu_pod_addition topology s =
      if is_shared_gpu_pod p pod
      then calculate_and_set_pod_gpu_usage_status topology s
      else ok topology

  unfoldable pub handle_shared_gpu_pod_update : NodeTopology → p.State → Result NodeTopology
  unfolding is_shared_gpu_pod calculate_and_set_pod_gpu_usage_status
  handle_shared_gpu_pod_update topology s =
      if is_shared_gpu_pod p pod
      then calculate_and_set_pod_gpu_usage_status topology s
      else ok topology

  unfoldable pub handle_shared_gpu_pod_deletion : NodeTopology → p.State → Result NodeTopology
  unfolding is_shared_gpu_pod at_reservation_gpu delete_usage
  handle_shared_gpu_pod_deletion topology s =
      if is_shared_gpu_pod p pod
      then at_reservation_gpu (delete_usage pod.uid) topology s
      else ok topology
