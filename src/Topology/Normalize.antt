-- ===== src/Topology/Normalize.antt =====
-- internal/common/topology/normalize.go: the old format of the topology ConfigMap, read as the new.
use fake_gpu_operator.Base.{
  ◌*◌, String, Bool, true, false, ◌||◌, none, some, List, [], ◌∷◌, map, if◌then◌else◌,
}
use fake_gpu_operator.Base.Dict.{Dict}
use fake_gpu_operator.Base.Int.{ℤ, pos, negsuc, scale, wrap_int64}
use fake_gpu_operator.Base.Text.{is_blank}
use fake_gpu_operator.Base.Result.{Result, ok, err, panic, ◌>>=◌, empty_topology, missing_key}
use fake_gpu_operator.Base.Dict.{lookup}
use fake_gpu_operator.Profile.Yaml.{
  Value, str, int64, array, object, Fields, end, field, get, replicate_values,
}
use fake_gpu_operator.Topology.{
  GenericDevice, NodePoolTopology, ClusterTopology, NodePoolConfig, ClusterConfig,
}
use fake_gpu_operator.Topology.ConfigMaps.{cm_topology_key}
use fake_gpu_operator.Platform.{Platform, ConfigMap}

abbrev pub has_key : String → Fields → Bool
has_key key m = elim (get key m) [ none ↦ false | some v ↦ true ]

-- make([]interface{}, n), filled with empty maps: a negative length panics.
abbrev pub empty_devices : ℤ → Result Value
empty_devices (pos n) = ok (array (replicate_values n (object end)))
empty_devices (negsuc n) = panic

abbrev pub device_defaults : NodePoolTopology → Fields
device_defaults old = field "name" (str old.gpu_product) (
    field "memory"
      (object (field "total_bytes" (int64 (wrap_int64 (scale old.gpu_memory (1024 * 1024)))) end))
      end)

abbrev pub resources_of : List GenericDevice → List (Dict ℤ)
resources_of = map (λ dev. (dev.name, dev.count) ∷ [])

unfoldable pub normalize_node_pool : NodePoolTopology → Result NodePoolConfig
normalize_node_pool old = do
  devices ← empty_devices old.gpu_count
  ok (record {
    gpu = record {
      backend = "fake";
      profile = "";
      overrides =
          some
            (field "device_defaults" (object (device_defaults old)) (field "devices" devices end));
    };
    numa = none;
    resources = resources_of old.other_devices;
  })

unfoldable pub normalize_pools : Dict NodePoolTopology → Result (Dict NodePoolConfig)
unfolding normalize_node_pool
normalize_pools [] = ok []
normalize_pools ((name, pool) ∷ pools) = do
  config ← normalize_node_pool pool
  rest ← normalize_pools pools
  ok ((name, config) ∷ rest)

unfoldable pub normalize_old_to_cluster_config : ClusterTopology → Result ClusterConfig
unfolding normalize_pools
normalize_old_to_cluster_config old = do
  pools ← normalize_pools old.node_pools
  ok (record {
    node_pool_label_key = old.node_pool_label_key;
    mig_strategy = old.mig_strategy;
    node_pools = pools;
    gpu_operator = none;
  })

-- The loop of isNewFormat over the pools, in the order of the map's iteration: some pool has a gpu
-- block, or else whether some pool has a field of the old format.
unfoldable pub scan_pools : Fields → Bool → Bool × Bool
scan_pools end legacy = (false, legacy)
scan_pools (field name (object pool) pools) legacy =
    let rest =
      scan_pools pools (legacy || (has_key "gpuProduct" pool || has_key "gpuCount" pool)) in
    if has_key "gpu" pool then (true, legacy) else rest
scan_pools (field name pool pools) legacy = scan_pools pools legacy

-- isNewFormat, on the parsed document.
unfoldable pub is_new_format : Fields → Bool
unfolding scan_pools
is_new_format raw = elim (get "nodePools" raw) [
  | some (object pools) ↦
      let (found, legacy) = scan_pools pools false in
      if found then true else if legacy then false else has_key "gpuOperator" raw
  | _ ↦ false
]

module _ (p : Platform) where
  -- A document that is no map is not new either.
  abbrev pub is_new_format_text : String → Bool
  is_new_format_text text = elim (p.unmarshal_fields text) [
    | ok raw ↦ is_new_format raw
    | _ ↦ false
  ]

  unfoldable pub parse_and_normalize_topology : String → Result ClusterConfig
  unfolding is_new_format normalize_old_to_cluster_config is_blank
  parse_and_normalize_topology text =
      if is_blank text
      then err empty_topology
      else if is_new_format_text text
      then p.unmarshal_cluster_config text
      else (p.unmarshal_cluster_topology text >>= normalize_old_to_cluster_config)

  unfoldable pub from_cluster_config_cm : ConfigMap → Result ClusterConfig
  unfolding parse_and_normalize_topology
  from_cluster_config_cm cm = elim (lookup cm_topology_key cm.contents) [
    | none ↦ err missing_key
    | some text ↦ parse_and_normalize_topology text
  ]

  unfoldable pub get_cluster_config_from_cm : p.State → Result ClusterConfig
  unfolding from_cluster_config_cm
  get_cluster_config_from_cm s =
      p.get_config_map s p.topology_cm_namespace p.topology_cm_name >>= from_cluster_config_cm
