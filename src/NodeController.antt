-- ===== src/NodeController.antt =====
-- internal/status-updater/controllers/node/controller.go: which nodes are watched, and the pruning of
-- topology ConfigMaps at the start.
pub mod Pruning
use fake_gpu_operator.Base.{
  String, Bool, true, false, not, Option, none, some, List, [], ◌∷◌, map, any, ◌==◌, if◌then◌else◌,
}
use fake_gpu_operator.Base.Dict.{lookup}
use fake_gpu_operator.Base.Result.{Result, ok, err, panic, not_found, or_err, no_node_label}
use fake_gpu_operator.Base.Effect.{Eff, ◌>>=◌, ◌>>◌, lift, reads}
use fake_gpu_operator.Topology.{ClusterConfig, GpuDetails, NodeTopology}
use fake_gpu_operator.Topology.ConfigMaps.{
  label_node_name, label_node_topology, get_node_topology_cm_name, from_node_topology_cm,
  update_node_topology_cm,
}
use fake_gpu_operator.Platform.{Platform, ConfigMap, Node}
use fake_gpu_operator.PodHandler.Gpus.{empty_status, with_gpus}

unfoldable pub is_fake_gpu_node : ClusterConfig → Node → Bool
is_fake_gpu_node config node = elim (lookup config.node_pool_label_key node.labels) [
  | none ↦ false
  | some v ↦ true
]

module _ (p : Platform) where
  unfoldable pub is_pod_exist : p.State → String → String → Result Bool
  is_pod_exist s pod_name namespace = elim (p.get_pod s namespace pod_name) [
    | ok pod ↦ ok true
    | err not_found ↦ ok false
    | err e ↦ err e
    | panic ↦ panic
  ]

  -- A GPU with no usage, and with no holder if the holder does not exist.
  abbrev pub reset_gpu : Bool → GpuDetails → GpuDetails
  reset_gpu exists gpu = record gpu {
    status = record {
      allocated_by = if exists then gpu.status.allocated_by else empty_status.allocated_by;
      pod_gpu_usage_status = some [];
    };
  }

  -- The loop over the GPUs, which stops at the first pod that cannot be looked up.
  unfoldable pub prune_gpus : p.State → List GpuDetails → Result (List GpuDetails)
  unfolding is_pod_exist
  prune_gpus s [] = ok []
  prune_gpus s (gpu ∷ gpus) =
      fake_gpu_operator.Base.Result.◌>>=◌
        (is_pod_exist s gpu.status.allocated_by.pod gpu.status.allocated_by.namespace)
        λ exists.
          fake_gpu_operator.Base.Result.◌>>=◌ (prune_gpus s gpus)
            λ rest. ok (reset_gpu exists gpu ∷ rest)

  -- The parsing, the loop and the label, on the state that they read.
  unfoldable pub pruned_topology : ConfigMap → p.State → Result (NodeTopology × String)
  unfolding prune_gpus
  pruned_topology cm s = fake_gpu_operator.Base.Result.◌>>=◌ (from_node_topology_cm p cm) λ t.
      fake_gpu_operator.Base.Result.◌>>=◌ (prune_gpus s t.gpus) λ gpus.
        fake_gpu_operator.Base.Result.◌>>=◌
          (or_err (lookup label_node_name cm.labels) no_node_label)
          λ node_name. ok (with_gpus t gpus, node_name)

  -- The deletion of a ConfigMap that no node is behind; its failure is logged.
  unfoldable pub delete_orphan : ConfigMap → Bool → Eff p.State (Unit {0})
  delete_orphan cm valid s =
      if valid
      then (s, ok tt)
      else ((p.delete_config_map s p.topology_cm_namespace cm.name).0, ok tt)

  unfoldable pub prune_topology_config_map : ConfigMap → Bool → Eff p.State (Unit {0})
  unfolding delete_orphan pruned_topology
  prune_topology_config_map cm valid = do
    delete_orphan cm valid
    pruned ← reads (pruned_topology cm)
    update_node_topology_cm p pruned.0 pruned.1

  -- The errors of the single ConfigMaps are gathered and dropped; a panic is none of them.
  unfoldable pub prune_each : List String → List ConfigMap → Eff p.State (Unit {0})
  unfolding prune_topology_config_map
  prune_each valid [] s = (s, ok tt)
  prune_each valid (cm ∷ cms) s =
      let (s', r) = prune_topology_config_map cm (any (λ name. name == cm.name) valid) s in
      elim r [ panic ↦ (s', panic) | _ ↦ prune_each valid cms s' ]

  unfoldable pub prune_topology_config_maps : ClusterConfig → Eff p.State (Unit {0})
  unfolding prune_each
  prune_topology_config_maps config = do
    nodes ← reads (λ s. p.list_nodes s config.node_pool_label_key)
    cms ← reads (λ s. p.list_config_maps s p.topology_cm_namespace label_node_topology "true")
    prune_each (map (λ node. get_node_topology_cm_name p node.name) nodes) cms
