-- ===== src/PodHandler/DraKind.antt =====
-- The handlers of DRA pods never panic: the marking of devices makes the usage maps that it needs.
use fake_gpu_operator.Base.{String, inl, inr, List, [], ◌∷◌, All, Bool-cases}
use fake_gpu_operator.Base.Text.{equal_fold}
use fake_gpu_operator.Base.Result.{Result, ok, err, panic, ok-injective, Returns, Returns-bind}
use fake_gpu_operator.Base.Result
use fake_gpu_operator.Topology.{GpuUsageStatus, GpuDetails, NodeTopology}
use fake_gpu_operator.Platform.{Platform, Pod}
use fake_gpu_operator.PodHandler.Util.{is_dra_pod}
use fake_gpu_operator.PodHandler.Usage.{calculate_usage}
use fake_gpu_operator.PodHandler.Gpus.{is_free, is_occupied_by_pod, set_usage_made, with_gpus}
use fake_gpu_operator.PodHandler.Dra.{
  mark_device, mark_devices, refresh_usage, devices_of_claims, get_resource_claim_names_from_pod,
  get_device_names_from_claims, dra_allocation, is_dra_already_allocated,
  handle_dra_gpu_pod_addition, handle_dra_gpu_pod_update,
}
use fake_gpu_operator.PodHandler.Allocation.{IsInitialized}
use fake_gpu_operator.PodHandler.NoPanic.{IsResponsive, Fine}

-- The claims of a DRA pod are read, and the marking of devices only adds usage maps.
set_usage_made-IsInitialized :
    (uid : String) (usage : GpuUsageStatus) (g : GpuDetails)
    → IsInitialized (set_usage_made uid usage g)
unfolding set_usage_made
set_usage_made-IsInitialized uid usage g e = cc

mark_device-Initialized :
    (pod : Pod) (usage : GpuUsageStatus) (device : String) (gs : List GpuDetails)
    → All IsInitialized gs
    → All IsInitialized (mark_device pod usage device gs)
unfolding mark_device
mark_device-Initialized pod usage device [] h = tt
mark_device-Initialized pod usage device (g ∷ gs) h = elim (Bool-cases (equal_fold g.id device)) [
  | inr other ↦ rw other (h.0, mark_device-Initialized pod usage device gs h.1)
  | inl here ↦ elim (Bool-cases (is_free g)) [
    | inl free ↦ rw (here, free) (λ e. cc, h.1)
    | inr taken ↦ rw (here, taken) h
  ]
]

mark_devices-Initialized :
    (pod : Pod) (usage : GpuUsageStatus) (devices : List String) (gs : List GpuDetails)
    → All IsInitialized gs
    → All IsInitialized (mark_devices pod usage devices gs)
unfolding mark_devices
mark_devices-Initialized pod usage [] gs h = h
mark_devices-Initialized pod usage (device ∷ devices) gs h =
    mark_devices-Initialized pod usage devices _ (mark_device-Initialized pod usage device gs h)

refresh_usage-Initialized :
    (pod : Pod) (usage : GpuUsageStatus) (gs : List GpuDetails)
    → All IsInitialized gs
    → All IsInitialized (refresh_usage pod usage gs)
unfolding refresh_usage
refresh_usage-Initialized pod usage [] h = tt
refresh_usage-Initialized pod usage (g ∷ gs) h = elim (Bool-cases (is_occupied_by_pod pod g)) [
  | inl e ↦ rw e (λ q. cc, refresh_usage-Initialized pod usage gs h.1)
  | inr e ↦ rw e (h.0, refresh_usage-Initialized pod usage gs h.1)
]

module _ (p : Platform) (r : IsResponsive p) (pod : Pod) (s : p.State) where
  devices_of_claims-Returns : (names : List String) → Returns (devices_of_claims p pod names s)
  unfolding devices_of_claims
  devices_of_claims-Returns [] = tt
  devices_of_claims-Returns (name ∷ names) =
      Returns-bind (p.get_claim s pod.namespace name) _ (r.claim_read s pod.namespace name)
        λ claim e.
          Returns-bind (devices_of_claims p pod names s) _ (devices_of_claims-Returns names)
            λ rest e'. tt

  dra_allocation-Fine :
      (t : NodeTopology) → All IsInitialized t.gpus → Fine (dra_allocation p pod t s)
  unfolding dra_allocation
  dra_allocation-Fine t h =
      go (get_device_names_from_claims p pod s)
        (devices_of_claims-Returns (get_resource_claim_names_from_pod pod))
    where
      go :
          (q : Result (List String))
          → Returns q
          → Fine (
              Result.◌>>=◌ q λ devices. ok (
                with_gpus t
                  (mark_devices pod (calculate_usage p s pod t.gpu_memory) devices t.gpus)))
      go (ok devices) a =
          mark_devices-Initialized pod (calculate_usage p s pod t.gpu_memory) devices t.gpus h
      go (err e) a = tt
      go panic a = a

  pub dra_addition-Fine :
      (t : NodeTopology) → All IsInitialized t.gpus → Fine (handle_dra_gpu_pod_addition p pod t s)
  unfolding handle_dra_gpu_pod_addition
  dra_addition-Fine t h = elim (Bool-cases (is_dra_pod pod)) [
    | inr e ↦ rw e h
    | inl e ↦ elim (Bool-cases (is_dra_already_allocated pod t)) [
      | inl known ↦ rw (e, known) h
      | inr new ↦ rw (e, new) (dra_allocation-Fine t h)
    ]
  ]

  pub dra_update-Fine :
      (t : NodeTopology) → All IsInitialized t.gpus → Fine (handle_dra_gpu_pod_update p pod t s)
  unfolding handle_dra_gpu_pod_update
  dra_update-Fine t h = elim (Bool-cases (is_dra_pod pod)) [
    | inr e ↦ rw e h
    | inl e ↦ elim (Bool-cases (is_dra_already_allocated pod t)) [
      | inl known ↦ rw (e, known) (refresh_usage-Initialized pod _ t.gpus h)
      | inr new ↦ rw (e, new) (dra_allocation-Fine t h)
    ]
  ]
