-- ===== src/PodHandler.antt =====
-- internal/status-updater/handlers/pod/handler.go: what the status updater does to a node's topology
-- when a pod is added, updated or deleted.
pub mod Util
pub mod Usage
pub mod Gpus
pub mod Reservation
pub mod Dedicated
pub mod Shared
pub mod Dra
pub mod Allocation
pub mod Release
pub mod Lifecycle
pub mod Safety
pub mod NoPanic
pub mod Kinds
pub mod DraKind
pub mod Events
pub mod Claims
pub mod ClaimNames
use fake_gpu_operator.Base.{[], ◌∷◌}
use fake_gpu_operator.Base.Result.{Result}
use fake_gpu_operator.Base.Effect.{Eff, ◌>>=◌, ◌>>◌, reads, lift}
use fake_gpu_operator.Platform.{Platform, Pod}
use fake_gpu_operator.Topology.ConfigMaps.{get_node_topology_from_cm, update_node_topology_cm}
use Dedicated.{
  handle_dedicated_gpu_pod_addition, handle_dedicated_gpu_pod_update,
  handle_dedicated_gpu_pod_deletion,
}
use Shared.{
  handle_shared_gpu_pod_addition, handle_shared_gpu_pod_update, handle_shared_gpu_pod_deletion,
}
use Dra.{handle_dra_gpu_pod_addition, handle_dra_gpu_pod_update, handle_dra_gpu_pod_deletion}

module _ (p : Platform) (pod : Pod) where
  unfoldable pub handle_add : Eff p.State (Unit {0})
  handle_add = do
    topology ← reads (get_node_topology_from_cm p pod.node_name)
    dedicated ← handle_dedicated_gpu_pod_addition p pod topology
    shared ← reads (handle_shared_gpu_pod_addition p pod dedicated)
    dra ← reads (handle_dra_gpu_pod_addition p pod shared)
    update_node_topology_cm p dra pod.node_name

  unfoldable pub handle_update : Eff p.State (Unit {0})
  handle_update = do
    topology ← reads (get_node_topology_from_cm p pod.node_name)
    dedicated ← reads (handle_dedicated_gpu_pod_update p pod topology)
    shared ← reads (handle_shared_gpu_pod_update p pod dedicated)
    dra ← reads (handle_dra_gpu_pod_update p pod shared)
    update_node_topology_cm p dra pod.node_name

  unfoldable pub handle_delete : Eff p.State (Unit {0})
  handle_delete = do
    topology ← reads (get_node_topology_from_cm p pod.node_name)
    dedicated ← lift (handle_dedicated_gpu_pod_deletion pod topology)
    shared ← reads (handle_shared_gpu_pod_deletion p pod dedicated)
    update_node_topology_cm p (handle_dra_gpu_pod_deletion pod shared) pod.node_name
