-- ===== src/ResourceSlices.antt =====
-- internal/kwok-dra-plugin/handlers/resourceslice/handler.go: the resource slice of a KWOK node,
-- from the topology in its ConfigMap. A device's name is the list of its code points.
pub mod Published
use Prim.Native.String
use fake_gpu_operator.Base.{
  ℕ, ◌*◌, String, Option, none, some, List, [], ◌∷◌, map, ◌==◌, if◌then◌else◌,
}
use fake_gpu_operator.Base.Int.{ℤ, pos, scale, wrap_int64}
use fake_gpu_operator.Base.Dict.{Dict, lookup}
use fake_gpu_operator.Base.Text.{codes, to_lower}
use fake_gpu_operator.Base.Result.{Result, ok, err, panic, not_found, no_node_label}
use fake_gpu_operator.Base.Effect.{Eff, ◌>>=◌, lift, reads}
use fake_gpu_operator.Topology.{GpuDetails, NodeTopology}
use fake_gpu_operator.Topology.ConfigMaps.{label_node_name, value_or_empty, from_node_topology_cm}
use fake_gpu_operator.Platform.{Platform, ConfigMap}
use fake_gpu_operator.NodeHandler.{ignore_not_found}

-- `memory` is the value of the quantity.
pub record Device : Type 0 where
  pub name : List ℕ
  pub attributes : Dict String
  pub memory : ℤ

pub record ResourceSlice : Type 0 where
  pub name : String
  pub driver : String
  pub node_name : String
  pub pool_name : String
  pub slice_count : ℕ
  pub devices : List Device
  pub resource_version : String

-- The API server's resource slices, by name.
pub record SliceApi (p : Platform) : Type 0 where
  pub get_slice : p.State → String → Result ResourceSlice
  pub create_slice : p.State → ResourceSlice → p.State × Result (Unit {0})
  pub update_slice : p.State → ResourceSlice → p.State × Result (Unit {0})
  pub delete_slice : p.State → String → p.State × Result (Unit {0})

abbrev pub resource_slice_name : String → String
resource_slice_name node_name = String.◌++◌ "kwok-" (String.◌++◌ node_name "-gpu")

abbrev pub memory_bytes : NodeTopology → ℤ
memory_bytes topology = wrap_int64 (scale topology.gpu_memory (1024 * 1024))

abbrev pub device_of : NodeTopology → GpuDetails → Device
device_of topology gpu = record {
  name = map to_lower (codes gpu.id);
  attributes =
      ("uuid", gpu.id)
      ∷ ("model", topology.gpu_product)
      ∷ ("gpu.nvidia.com/type", "gpu")
      ∷ ("gpu.nvidia.com/uuid", gpu.id)
      ∷ ("gpu.nvidia.com/productName", topology.gpu_product)
      ∷ [];
  memory = memory_bytes topology;
}

-- The loop over the GPUs, which skips one without an ID.
unfoldable pub devices_of_gpus : NodeTopology → List GpuDetails → List Device
devices_of_gpus topology [] = []
devices_of_gpus topology (gpu ∷ gpus) =
    let rest = devices_of_gpus topology gpus in
    if gpu.id == "" then rest else device_of topology gpu ∷ rest

unfoldable pub devices_from_topology : NodeTopology → List Device
unfolding devices_of_gpus
devices_from_topology topology = devices_of_gpus topology topology.gpus

unfoldable pub slice_of : String → NodeTopology → String → ResourceSlice
unfolding devices_from_topology
slice_of node_name topology version = record {
  name = resource_slice_name node_name;
  driver = "gpu.nvidia.com";
  node_name = node_name;
  pool_name = node_name;
  slice_count = 1;
  devices = devices_from_topology topology;
  resource_version = version;
}

module _ (p : Platform) (api : SliceApi p) where
  -- The update carries the version of the slice that was read.
  unfoldable pub create_or_update_resource_slice : String → NodeTopology → Eff p.State (Unit {0})
  unfolding slice_of
  create_or_update_resource_slice node_name topology s =
      elim (api.get_slice s (resource_slice_name node_name)) [
        | ok existing ↦ api.update_slice s (slice_of node_name topology existing.resource_version)
        | err not_found ↦ api.create_slice s (slice_of node_name topology "")
        | err e ↦ (s, err e)
        | panic ↦ (s, panic)
      ]

  unfoldable pub delete_resource_slice : String → Eff p.State (Unit {0})
  delete_resource_slice node_name s =
      let (s', r) = api.delete_slice s (resource_slice_name node_name) in (s', ignore_not_found r)

  unfoldable pub handle_add_or_update : ConfigMap → Eff p.State (Unit {0})
  unfolding create_or_update_resource_slice from_node_topology_cm
  handle_add_or_update cm =
      let node_name = value_or_empty (lookup label_node_name cm.labels) in
      if node_name == ""
      then lift (err no_node_label)
      else (lift (from_node_topology_cm p cm) >>= create_or_update_resource_slice node_name)
