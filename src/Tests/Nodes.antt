-- ===== src/Tests/Nodes.antt =====
-- Pools in the old format, the format test, and the pruning of an orphan.
use fake_gpu_operator.Base.{false, ◌≡◌, ◌≢◌, refl, [], ◌∷◌, ◌||◌, ◌&&◌, not, eq_refl}
use fake_gpu_operator.Base.Dict.{lookup, insert, erase, lookup-insert}
use fake_gpu_operator.Base.Int.{pos}
use fake_gpu_operator.Base.Result.{ok}
use fake_gpu_operator.Profile.Yaml.{Fields, field, end, object, str, get}
use fake_gpu_operator.Topology.{NodePoolTopology}
use fake_gpu_operator.Topology.Normalize.{is_new_format, has_key}
use fake_gpu_operator.Topology.RoundTrip.{any_pool, has_legacy_marker, is_new_format-any}
use fake_gpu_operator.Topology.ConfigMaps.{
  get_node_topology_cm_name, from_node_topology_cm, update_node_topology_cm,
}
use fake_gpu_operator.Platform.{Platform, ConfigMap}
use fake_gpu_operator.NodeController.{prune_gpus, prune_topology_config_map}
use fake_gpu_operator.NodeController.Pruning.{
  AllPruned, prune_gpus-AllPruned, prune_gpus-refused, ReadsBack, prune-keeps_config_map,
}
use fake_gpu_operator.Tests.Memory.{Memory, memory, gpu, topology, server, topology_cm}

abbrev platform : Platform
platform = memory (topology (gpu "a" "gone" ∷ []))

abbrev old_pool : NodePoolTopology
old_pool = record {
  gpu_count = pos 2;
  gpu_memory = pos 11441;
  gpu_product = "Tesla-K80";
  other_devices = [];
}

abbrev pools : Fields
pools =
    field "old" (object (field "gpuCount" (str "2") end))
      (field "new" (object (field "gpu" (object end) end)) end)

is_new_format-any_example : is_new_format (field "nodePools" (object pools) end) ≡ (
    any_pool (has_key "gpu") pools
    || (not (any_pool has_legacy_marker pools)
        && has_key "gpuOperator" (field "nodePools" (object pools) end)))
unfolding get
is_new_format-any_example = is_new_format-any (field "nodePools" (object pools) end) pools refl

pruned_run : prune_gpus platform server (gpu "a" "gone" ∷ []) ≡ ok (gpu "a" "" ∷ [])
unfolding prune_gpus
pruned_run = refl

prune_gpus-AllPruned_example : AllPruned platform server (gpu "a" "gone" ∷ []) (gpu "a" "" ∷ [])
prune_gpus-AllPruned_example =
    prune_gpus-AllPruned platform server (gpu "a" "gone" ∷ []) (gpu "a" "" ∷ []) pruned_run

prune_gpus-refused_example : prune_gpus platform server (gpu "a" "" ∷ []) ≢ ok (gpu "a" "" ∷ [])
prune_gpus-refused_example =
    prune_gpus-refused platform server (λ ns. refl) (gpu "a" "" ∷ []) (gpu "a" "" ∷ []) refl

reads_back : ReadsBack platform
reads_back = record { applied = λ s cm e. (cm, simp (lookup-insert, eq_refl) refl) }

after_pruning : Memory
after_pruning = record server {
  config_maps = insert "topology-node" topology_cm (erase "topology-node" server.config_maps);
}

orphan_pruned : prune_topology_config_map platform topology_cm false server ≡ (after_pruning, ok tt)
unfolding prune_topology_config_map update_node_topology_cm after_pruning lookup
    from_node_topology_cm
orphan_pruned = refl

prune-keeps_config_map_example :
    (cm' : ConfigMap) × (platform.get_config_map after_pruning "gpu-operator"
        (get_node_topology_cm_name platform "node")
      ≡ ok cm')
unfolding lookup
prune-keeps_config_map_example =
    prune-keeps_config_map platform reads_back topology_cm "node" refl false server after_pruning
      orphan_pruned
