-- ===== src/PodHandler/Dra.antt =====
-- internal/status-updater/handlers/pod/dra_gpu_pod_handler.go: pods whose GPUs were chosen by dynamic
-- resource allocation.
use fake_gpu_operator.Base.{
  String, Bool, Option, none, some, ◌==◌, if◌then◌else◌, List, [], ◌∷◌, ◌++◌, any,
}
use fake_gpu_operator.Base.Result.{Result, ok, ◌>>=◌}
use fake_gpu_operator.Base.Text.{equal_fold}
use fake_gpu_operator.Topology.{GpuUsageStatus, GpuDetails, NodeTopology}
use fake_gpu_operator.Platform.{Platform, Pod, Container, ResourceClaim, AllocationResult}
use fake_gpu_operator.PodHandler.Util.{is_dra_pod}
use fake_gpu_operator.PodHandler.Usage.{calculate_usage}
use fake_gpu_operator.PodHandler.Gpus.{
  is_free, is_occupied_by_pod, allocate_to, set_usage_made, release, with_gpus,
}

abbrev pub dra_driver_name : String
dra_driver_name = "gpu.nvidia.com"

abbrev pub contains_name : String → List String → Bool
contains_name name = any (λ n. n == name)

-- One of the two loops of getResourceClaimNamesFromPod; `seen` holds what was added before.
unfoldable pub add_claim_names : List (Option String) → List String → List String
add_claim_names [] seen = seen
add_claim_names (none ∷ rest) seen = add_claim_names rest seen
add_claim_names (some name ∷ rest) seen =
    add_claim_names rest
      (if name == "" then seen else if contains_name name seen then seen else seen ++ name ∷ [])

unfoldable pub get_resource_claim_names_from_pod : Pod → List String
unfolding add_claim_names
get_resource_claim_names_from_pod pod =
    add_claim_names pod.resource_claims (add_claim_names pod.resource_claim_statuses [])

unfoldable pub devices_of : List AllocationResult → List String
devices_of [] = []
devices_of (r ∷ rs) =
    if r.driver == dra_driver_name then r.device ∷ devices_of rs else devices_of rs

unfoldable pub get_devices_from_claim : ResourceClaim → List String
unfolding devices_of
get_devices_from_claim claim = elim claim.allocation [
  | none ↦ []
  | some results ↦ devices_of results
]

-- The container that is written down: the first with a claim, else the first.
unfoldable pub container_with_claim : List Container → Option String
container_with_claim [] = none
container_with_claim (c ∷ cs) = elim c.claims [
  | [] ↦ container_with_claim cs
  | x ∷ xs ↦ some c.name
]

unfoldable pub get_container_with_claim : Pod → String
unfolding container_with_claim
get_container_with_claim pod = elim (container_with_claim pod.containers) [
  | some name ↦ name
  | none ↦ elim pod.containers [ [] ↦ "" | c ∷ cs ↦ c.name ]
]

-- The body of the loop over device names, at the first GPU with that ID (findGpuIndexByID); a
-- device that is not found, or not free, is logged and passed over.
unfoldable pub mark_device : Pod → GpuUsageStatus → String → List GpuDetails → List GpuDetails
unfolding get_container_with_claim set_usage_made
mark_device pod usage device [] = []
mark_device pod usage device (gpu ∷ gpus) =
    let rest = mark_device pod usage device gpus in
    if equal_fold gpu.id device
    then (if is_free gpu
        then set_usage_made pod.uid usage (allocate_to pod (get_container_with_claim pod) gpu)
        else gpu)
      ∷ gpus
    else gpu ∷ rest

unfoldable pub mark_devices : Pod → GpuUsageStatus → List String → List GpuDetails → List GpuDetails
unfolding mark_device
mark_devices pod usage [] gpus = gpus
mark_devices pod usage (device ∷ devices) gpus =
    mark_devices pod usage devices (mark_device pod usage device gpus)

-- The usage of each GPU that the pod holds.
unfoldable pub refresh_usage : Pod → GpuUsageStatus → List GpuDetails → List GpuDetails
unfolding set_usage_made
refresh_usage pod usage [] = []
refresh_usage pod usage (gpu ∷ gpus) =
    (if is_occupied_by_pod pod gpu then set_usage_made pod.uid usage gpu else gpu)
    ∷ refresh_usage pod usage gpus

unfoldable pub is_dra_already_allocated : Pod → NodeTopology → Bool
is_dra_already_allocated pod topology = any (is_occupied_by_pod pod) topology.gpus

module _ (p : Platform) (pod : Pod) where
  unfoldable pub devices_of_claims : List String → p.State → Result (List String)
  unfolding get_devices_from_claim
  devices_of_claims [] s = ok []
  devices_of_claims (name ∷ names) s = do
    claim ← p.get_claim s pod.namespace name
    rest ← devices_of_claims names s
    ok (get_devices_from_claim claim ++ rest)

  unfoldable pub get_device_names_from_claims : p.State → Result (List String)
  unfolding devices_of_claims get_resource_claim_names_from_pod
  get_device_names_from_claims s = devices_of_claims (get_resource_claim_names_from_pod pod) s

  -- The marking of the claimed devices, which the addition and the late allocation share.
  unfoldable pub dra_allocation : NodeTopology → p.State → Result NodeTopology
  unfolding get_device_names_from_claims mark_devices
  dra_allocation topology s = do
    devices ← get_device_names_from_claims s
    ok (
        with_gpus topology
          (mark_devices pod (calculate_usage p s pod topology.gpu_memory) devices topology.gpus))

  unfoldable pub handle_dra_gpu_pod_addition : NodeTopology → p.State → Result NodeTopology
  unfolding is_dra_pod is_dra_already_allocated dra_allocation
  handle_dra_gpu_pod_addition topology s =
      if is_dra_pod pod
      then (if is_dra_already_allocated pod topology
          then ok topology
          else dra_allocation topology s)
      else ok topology

  unfoldable pub handle_dra_gpu_pod_update : NodeTopology → p.State → Result NodeTopology
  unfolding is_dra_pod is_dra_already_allocated dra_allocation refresh_usage
  handle_dra_gpu_pod_update topology s =
      if is_dra_pod pod
      then (if is_dra_already_allocated pod topology
          then ok (
              with_gpus topology
                (refresh_usage pod (calculate_usage p s pod topology.gpu_memory) topology.gpus))
          else dra_allocation topology s)
      else ok topology

unfoldable pub handle_dra_gpu_pod_deletion : Pod → NodeTopology → NodeTopology
unfolding is_dra_pod release
handle_dra_gpu_pod_deletion pod topology =
    if is_dra_pod pod
    then with_gpus topology (release (is_occupied_by_pod pod) topology.gpus)
    else topology
