-- ===== src/PodHandler/Dedicated.antt =====
-- internal/status-updater/handlers/pod/dedicated_gpu_pod_handler.go. Each handler returns the changed
-- topology. `calculateUsage` only reads, so it is called once for the GPUs of one event.
use fake_gpu_operator.Base.{
  ℕ, zero, suc, String, Bool, true, false, if◌then◌else◌, List, [], ◌∷◌, any,
}
use fake_gpu_operator.Base.Result.{Result, ok, err, panic}
use fake_gpu_operator.Base.Result
use fake_gpu_operator.Base.Effect.{Eff, ◌>>=◌, ◌>>◌, lift}
use fake_gpu_operator.Topology.{GpuUsageStatus, GpuDetails, NodeTopology}
use fake_gpu_operator.Platform.{Platform, Pod, Container}
use fake_gpu_operator.PodHandler.Util.{
  first_container, is_dedicated_gpu_pod, is_gpu_reservation_pod,
}
use fake_gpu_operator.PodHandler.Usage.{calculate_usage}
use fake_gpu_operator.PodHandler.Gpus.{
  is_free, is_occupied_by_container, allocate_to, set_usage, release, update_where, with_gpus,
}
use fake_gpu_operator.PodHandler.Reservation.{handle_gpu_reservation_pod_addition}

-- A reservation pod has no usage of its own.
unfoldable pub record_usage : Bool → String → GpuUsageStatus → GpuDetails → Result GpuDetails
unfolding set_usage
record_usage reservation uid usage gpu = if reservation then ok gpu else set_usage uid usage gpu

-- The loop of handleDedicatedGpuPodAddition: `requested` GPUs are still to be found.
unfoldable pub allocate_free :
    Pod → String → (GpuDetails → Result GpuDetails) → ℕ → List GpuDetails → Result (List GpuDetails)
allocate_free pod container use_gpu requested [] = ok []
allocate_free pod container use_gpu zero (gpu ∷ gpus) = ok (gpu ∷ gpus)
allocate_free pod container use_gpu (suc n) (gpu ∷ gpus) = elim (is_free gpu) [
  | true ↦
      Result.◌>>=◌ (use_gpu (allocate_to pod container gpu))
        λ gpu'. Result.◌>>=◌ (allocate_free pod container use_gpu n gpus) λ gpus'. ok (gpu' ∷ gpus')
  | false ↦
      Result.◌>>=◌ (allocate_free pod container use_gpu (suc n) gpus) λ gpus'. ok (gpu ∷ gpus')
]

unfoldable pub is_already_allocated : Pod → Container → NodeTopology → Bool
is_already_allocated pod container topology =
    any (is_occupied_by_container pod container.name) topology.gpus

module _ (p : Platform) (pod : Pod) where
  -- The addition, once the pod is known to ask for GPUs. `Limits.Name` never returns nil.
  unfoldable pub dedicated_addition : Container → NodeTopology → Eff p.State NodeTopology
  unfolding record_usage allocate_free is_already_allocated is_gpu_reservation_pod
      handle_gpu_reservation_pod_addition
  dedicated_addition c topology =
      if is_already_allocated pod c topology then lift (ok topology) else (λ s.
        (do
          gpus ← lift (
              allocate_free pod c.name
                (record_usage (is_gpu_reservation_pod p pod) pod.uid
                  (calculate_usage p s pod topology.gpu_memory))
                c.gpu_limit topology.gpus)
          handle_gpu_reservation_pod_addition p pod (with_gpus topology gpus)
          lift (ok (with_gpus topology gpus)))
          s)

  unfoldable pub handle_dedicated_gpu_pod_addition : NodeTopology → Eff p.State NodeTopology
  unfolding is_dedicated_gpu_pod
  handle_dedicated_gpu_pod_addition topology = do
    dedicated ← lift (is_dedicated_gpu_pod pod)
    c ← lift (first_container pod)
    if dedicated then dedicated_addition c topology else lift (ok topology)

  unfoldable pub handle_dedicated_gpu_pod_update : NodeTopology → p.State → Result NodeTopology
  unfolding is_dedicated_gpu_pod record_usage update_where is_gpu_reservation_pod
  handle_dedicated_gpu_pod_update topology s = Result.◌>>=◌ (is_dedicated_gpu_pod pod) λ dedicated.
      Result.◌>>=◌ (first_container pod) λ c.
        if dedicated
        then Result.◌>>=◌
            (update_where (is_occupied_by_container pod c.name)
              (record_usage (is_gpu_reservation_pod p pod) pod.uid
                (calculate_usage p s pod topology.gpu_memory))
              topology.gpus)
            (λ gpus. ok (with_gpus topology gpus))
        else ok topology

unfoldable pub handle_dedicated_gpu_pod_deletion : Pod → NodeTopology → Result NodeTopology
unfolding is_dedicated_gpu_pod release
handle_dedicated_gpu_pod_deletion pod topology =
    Result.◌>>=◌ (is_dedicated_gpu_pod pod) λ dedicated. Result.◌>>=◌ (first_container pod) λ c.
      if dedicated
      then ok (with_gpus topology (release (is_occupied_by_container pod c.name) topology.gpus))
      else ok topology
