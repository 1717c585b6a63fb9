-- ===== src/PodHandler/Reservation.antt =====
-- internal/status-updater/handlers/pod/gpu_reservation_pod_handler.go
use fake_gpu_operator.Base.{String, Option, none, some, ◌==◌, find, if◌then◌else◌}
use fake_gpu_operator.Base.Result.{Result, ok, err, no_gpu_of_pod}
use fake_gpu_operator.Base.Effect.{Eff, ◌>>=◌, lift}
use fake_gpu_operator.Topology.{GpuDetails, NodeTopology}
use fake_gpu_operator.Platform.{Platform, Pod}
use fake_gpu_operator.PodHandler.Util.{
  has, is_gpu_reservation_pod, annotation_reservation_pod_gpu_idx,
}

abbrev pub id_of : Option GpuDetails → Result String
id_of none = err no_gpu_of_pod
id_of (some gpu) = ok gpu.id

-- The first GPU that is allocated to a pod of this name.
unfoldable pub find_pod_gpu_id : Pod → NodeTopology → Result String
find_pod_gpu_id pod topology =
    id_of (find (λ gpu. gpu.status.allocated_by.pod == pod.name) topology.gpus)

module _ (p : Platform) (pod : Pod) where
  unfoldable pub set_reservation_pod_gpu_idx_annotation_if_needed :
      NodeTopology → Eff p.State (Unit {0})
  unfolding find_pod_gpu_id
  set_reservation_pod_gpu_idx_annotation_if_needed topology =
      if has annotation_reservation_pod_gpu_idx pod.annotations then lift (ok tt) else (do
        id ← lift (find_pod_gpu_id pod topology)
        λ s. p.annotate_pod s pod.namespace pod.name annotation_reservation_pod_gpu_idx id)

  unfoldable pub handle_gpu_reservation_pod_addition : NodeTopology → Eff p.State (Unit {0})
  unfolding is_gpu_reservation_pod set_reservation_pod_gpu_idx_annotation_if_needed
  handle_gpu_reservation_pod_addition topology =
      if is_gpu_reservation_pod p pod
      then set_reservation_pod_gpu_idx_annotation_if_needed topology
      else lift (ok tt)
