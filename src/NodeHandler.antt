-- ===== src/NodeHandler.antt =====
-- internal/status-updater/handlers/node: what the status updater does when a node joins or leaves a
-- node pool (handler.go, topology_cm.go, labels.go, common.go).
pub mod Creation
pub mod Labels
use Prim.Native.String
use fake_gpu_operator.Base.{
  ℕ, zero, suc, String, Bool, true, false, Option, none, some, List, [], ◌∷◌, ◌++◌, map, ◌==◌,
  if◌then◌else◌, range_from,
}
use fake_gpu_operator.Base.Int.{ℤ, pos, negsuc}
use fake_gpu_operator.Base.Text.{decimal}
use fake_gpu_operator.Base.Dict.{Dict, lookup}
use fake_gpu_operator.Base.Result.{
  Result, ok, err, panic, Error, not_found, or_err, no_pool_label, no_pool,
}
use fake_gpu_operator.Base.Effect.{Eff, ◌>>=◌, ◌>>◌, lift, reads}
use fake_gpu_operator.Topology.{ClusterConfig, GpuDetails, NodeTopology}
use fake_gpu_operator.Topology.ConfigMaps.{
  annotation_kwok_node, get_node_topology_from_cm, create_node_topology_cm, delete_node_topology_cm,
}
use fake_gpu_operator.Topology.Resolve.{ResolvedPool, resolve_node_pool}
use fake_gpu_operator.Platform.{Platform, Node}
use fake_gpu_operator.PodHandler.Gpus.{empty_status}

pub record NodeHandler : Type 0 where
  pub cluster_config : ClusterConfig
  pub disable_labeling : Bool

abbrev pub dcgm_exporter_label_key : String
dcgm_exporter_label_key = "nvidia.com/gpu.deploy.dcgm-exporter"

abbrev pub device_plugin_label_key : String
device_plugin_label_key = "nvidia.com/gpu.deploy.device-plugin"

abbrev pub dra_plugin_gpu_label_key : String
dra_plugin_gpu_label_key = "nvidia.com/gpu.deploy.dra-plugin-gpu"

abbrev pub compute_domain_device_plugin_label_key : String
compute_domain_device_plugin_label_key = "nvidia.com/gpu.deploy.compute-domain-dra-plugin"

unfoldable pub is_fake_node : Node → Bool
is_fake_node node = elim (lookup annotation_kwok_node node.annotations) [
  | none ↦ false
  | some v ↦ v == "fake"
]

-- The labels that labelNode sets.
unfoldable pub labels_of : Node → Dict (Option String)
unfolding is_fake_node
labels_of node =
    (dcgm_exporter_label_key, some "true")
    ∷ (if is_fake_node node
        then []
        else (device_plugin_label_key, some "true")
          ∷ (dra_plugin_gpu_label_key, some "true")
          ∷ (compute_domain_device_plugin_label_key, some "true")
          ∷ [])

-- The labels that unlabelNode removes.
abbrev pub no_labels : Dict (Option String)
no_labels =
    (dcgm_exporter_label_key, none)
    ∷ (device_plugin_label_key, none)
    ∷ (dra_plugin_gpu_label_key, none)
    ∷ (compute_domain_device_plugin_label_key, none)
    ∷ []

-- The `i`-th GPU's name-based UUID.
unfoldable pub gpu_id : Platform → String → ℕ → String
gpu_id p node_name i =
    String.◌++◌ "GPU-" (p.uuid_of (String.◌++◌ node_name (String.◌++◌ "-" (decimal i))))

-- make([]topology.GpuDetails, gpuCount) panics on a negative count.
unfoldable pub generate_gpu_details : Platform → ℤ → String → Result (List GpuDetails)
unfolding gpu_id
generate_gpu_details p (negsuc n) node_name = panic
generate_gpu_details p (pos n) node_name =
    ok (map (λ i. record { id = gpu_id p node_name i; status = empty_status }) (range_from 0 n))

-- An error other than NotFound is kept.
abbrev pub ignore_not_found : Result (Unit {0}) → Result (Unit {0})
ignore_not_found (err not_found) = ok tt
ignore_not_found r = r

module _ (p : Platform) (h : NodeHandler) (node : Node) where
  abbrev pub topology_of : ResolvedPool → List GpuDetails → NodeTopology
  topology_of resolved gpus = record {
    gpu_memory = resolved.gpu_memory;
    gpu_product = resolved.gpu_product;
    driver_version = resolved.driver_version;
    cuda_version = resolved.cuda_version;
    gpus = gpus;
    mig_strategy = h.cluster_config.mig_strategy;
    other_devices = resolved.other_devices;
  }

  -- The topology that a node without one is given.
  unfoldable pub initial_topology : p.State → Result NodeTopology
  unfolding generate_gpu_details
  initial_topology s =
      fake_gpu_operator.Base.Result.◌>>=◌
        (or_err (lookup h.cluster_config.node_pool_label_key node.labels) no_pool_label)
        λ pool_name.
          fake_gpu_operator.Base.Result.◌>>=◌
            (or_err (lookup pool_name h.cluster_config.node_pools) no_pool)
            λ pool.
              fake_gpu_operator.Base.Result.◌>>=◌
                (resolve_node_pool p s p.topology_cm_namespace pool)
                λ resolved.
                  fake_gpu_operator.Base.Result.◌>>=◌
                    (generate_gpu_details p resolved.gpu_count node.name)
                    λ gpus. ok (topology_of resolved gpus)

  -- Any failure to read the topology counts as its absence.
  unfoldable pub create_node_topology : Eff p.State (Unit {0})
  unfolding initial_topology
  create_node_topology s = elim (get_node_topology_from_cm p node.name s) [
    | ok t ↦ (s, ok tt)
    | err e ↦ (do t ← reads initial_topology; create_node_topology_cm p t node) s
    | panic ↦ (s, panic)
  ]

  unfoldable pub label_node : Eff p.State (Unit {0})
  unfolding labels_of
  label_node s = p.patch_node_labels s node.name (labels_of node)

  unfoldable pub unlabel_node : Eff p.State (Unit {0})
  unlabel_node s =
      let (s', r) = p.patch_node_labels s node.name no_labels in (s', ignore_not_found r)

  unfoldable pub handle_add : Eff p.State (Unit {0})
  unfolding create_node_topology label_node
  handle_add = do create_node_topology; (if h.disable_labeling then lift (ok tt) else label_node)

  unfoldable pub handle_delete : Eff p.State (Unit {0})
  unfolding unlabel_node
  handle_delete = do
    (λ s. let (s', r) = delete_node_topology_cm p node.name s in (s', ignore_not_found r))
    (if h.disable_labeling then lift (ok tt) else unlabel_node)
