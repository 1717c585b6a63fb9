-- ===== src/KwokDomains.antt =====
-- internal/kwok-compute-domain-dra-plugin/controllers/node/reconciler.go: the resource slice with the
-- compute-domain channel of a KWOK node.
pub mod Mirror
use Prim.Native.String
use fake_gpu_operator.Base.{ℕ, String, Bool, false, ◌||◌, List, [], ◌∷◌, ◌==◌}
use fake_gpu_operator.Base.Dict.{Dict, lookup}
use fake_gpu_operator.Base.Result.{Result, ok, err, panic, not_found}
use fake_gpu_operator.Base.Effect.{Eff, lift}
use fake_gpu_operator.Topology.ConfigMaps.{value_or_empty}
use fake_gpu_operator.Platform.{Node}
use fake_gpu_operator.NodeHandler.{ignore_not_found}
use fake_gpu_operator.DomainPlugin.{compute_domain_driver_name, device_name_for_channel}

-- A device and its attributes: its type, and its number.
pub record ChannelDevice : Type 0 where
  pub name : String
  pub device_type : String
  pub id : ℕ

pub record ChannelSlice : Type 0 where
  pub name : String
  pub driver : String
  pub node_name : String
  pub pool_name : String
  pub slice_count : ℕ
  pub devices : List ChannelDevice
  pub resource_version : String

-- The API server's nodes and resource slices, by name.
pub record NodeApi : Type 1 where
  pub State : Type 0
  pub get_node : State → String → Result Node
  pub get_slice : State → String → Result ChannelSlice
  pub create_slice : State → ChannelSlice → State × Result (Unit {0})
  pub update_slice : State → ChannelSlice → State × Result (Unit {0})
  pub delete_slice : State → String → State × Result (Unit {0})

abbrev pub channel_slice_name : String → String
channel_slice_name node_name = String.◌++◌ "kwok-" (String.◌++◌ node_name "-compute-domain-channel")

unfoldable pub new_channel_device : ℕ → ChannelDevice
new_channel_device channel_id = record {
  name = device_name_for_channel channel_id;
  device_type = "channel";
  id = channel_id;
}

unfoldable pub enumerate_compute_domain_devices : List ChannelDevice
unfolding new_channel_device
enumerate_compute_domain_devices = new_channel_device 0 ∷ []

unfoldable pub channel_slice : String → String → ChannelSlice
unfolding enumerate_compute_domain_devices
channel_slice node_name version = record {
  name = channel_slice_name node_name;
  driver = compute_domain_driver_name;
  node_name = node_name;
  pool_name = node_name;
  slice_count = 1;
  devices = enumerate_compute_domain_devices;
  resource_version = version;
}

-- A node is watched by its labels and annotations; the API server has no empty map, so one without
-- labels has a nil map of them.
unfoldable pub is_kwok_node : Dict String → Dict String → Bool
is_kwok_node [] annotations = false
is_kwok_node (label ∷ labels) annotations =
    value_or_empty (lookup "type" (label ∷ labels)) == "kwok"
    || value_or_empty (lookup "kwok.x-k8s.io/node" annotations) == "fake"

module _ (api : NodeApi) where
  -- By what the read of the slice found.
  unfoldable pub write_slice : String → Result ChannelSlice → Eff api.State (Unit {0})
  unfolding channel_slice
  write_slice node_name (ok existing) =
      λ s. api.update_slice s (channel_slice node_name existing.resource_version)
  write_slice node_name (err not_found) = λ s. api.create_slice s (channel_slice node_name "")
  write_slice node_name (err e) = lift (err e)
  write_slice node_name panic = lift panic

  unfoldable pub publish_slice : String → Eff api.State (Unit {0})
  unfolding write_slice
  publish_slice node_name s =
      write_slice node_name (api.get_slice s (channel_slice_name node_name)) s

  unfoldable pub remove_slice : String → Eff api.State (Unit {0})
  remove_slice node_name s =
      let (s', r) = api.delete_slice s (channel_slice_name node_name) in (s', ignore_not_found r)

  -- By what the read of the node found.
  unfoldable pub reconcile_node : String → Result Node → Eff api.State (Unit {0})
  unfolding publish_slice remove_slice
  reconcile_node name (ok node) = publish_slice node.name
  reconcile_node name (err not_found) = remove_slice name
  reconcile_node name (err e) = lift (err e)
  reconcile_node name panic = lift panic

  -- By the name in the request.
  unfoldable pub reconcile : String → Eff api.State (Unit {0})
  unfolding reconcile_node
  reconcile name s = reconcile_node name (api.get_node s name) s
