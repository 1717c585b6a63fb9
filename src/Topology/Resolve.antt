-- ===== src/Topology/Resolve.antt =====
-- internal/common/topology/resolve.go, and `Load` of internal/common/profile/profile.go: the GPUs that
-- a node pool's configuration stands for.
use Prim.Native.String
use fake_gpu_operator.Base.{String, Option, none, some, List, [], ◌∷◌, ◌++◌, if◌then◌else◌, ◌==◌}
use fake_gpu_operator.Base.Text.{str_lt}
use fake_gpu_operator.Base.Dict.{Dict, lookup}
use fake_gpu_operator.Base.Int.{ℤ, pos, quot}
use fake_gpu_operator.Base.Result.{Result, ok, err, ◌>>=◌, missing_key}
use fake_gpu_operator.Profile.{merge, extract, get_map, mebibyte, string_at, device_count}
use fake_gpu_operator.Profile.Yaml.{Fields, end, int, int64, float64, get}
use fake_gpu_operator.Topology.{GenericDevice, GpuConfig, NodePoolConfig}
use fake_gpu_operator.Platform.{Platform}

pub record ResolvedPool : Type 0 where
  pub gpu_product : String
  pub gpu_memory : ℤ
  pub gpu_count : ℤ
  pub driver_version : String
  pub cuda_version : String
  pub other_devices : List GenericDevice

abbrev pub gpu_resource_name : String
gpu_resource_name = "nvidia.com/gpu"

-- The resources of one entry, in the order of the map's iteration, less nvidia.com/gpu.
unfoldable pub devices_of_entry : Dict ℤ → List GenericDevice
devices_of_entry [] = []
devices_of_entry ((name, count) ∷ rest) =
    if name == gpu_resource_name
    then devices_of_entry rest
    else record { name = name; count = count } ∷ devices_of_entry rest

unfoldable pub collect_devices : List (Dict ℤ) → List GenericDevice
unfolding devices_of_entry
collect_devices [] = []
collect_devices (entry ∷ rest) = devices_of_entry entry ++ collect_devices rest

-- sort.Slice by name. It promises the order of the names, and no order among equal ones.
unfoldable pub insert_device : GenericDevice → List GenericDevice → List GenericDevice
insert_device d [] = d ∷ []
insert_device d (e ∷ es) =
    let rest = insert_device d es in if str_lt e.name d.name then e ∷ rest else d ∷ e ∷ es

unfoldable pub sort_devices : List GenericDevice → List GenericDevice
unfolding insert_device
sort_devices [] = []
sort_devices (d ∷ ds) = insert_device d (sort_devices ds)

abbrev pub unresolved : List GenericDevice → ResolvedPool
unresolved devices = record {
  gpu_product = "";
  gpu_memory = pos 0;
  gpu_count = pos 0;
  driver_version = "";
  cuda_version = "";
  other_devices = devices;
}

-- resolveFromOverrides
unfoldable pub resolve_from_overrides : Option Fields → ResolvedPool → ResolvedPool
unfolding get_map device_count
resolve_from_overrides none resolved = resolved
resolve_from_overrides (some overrides) resolved = record resolved {
  gpu_product = elim (get_map overrides "device_defaults") [
    | none ↦ resolved.gpu_product
    | some dd ↦ string_at "name" dd
  ];
  gpu_memory = elim (get_map overrides "device_defaults") [
    | none ↦ resolved.gpu_memory
    | some dd ↦ elim (get_map dd "memory") [
      | none ↦ resolved.gpu_memory
      | some mem ↦ elim (get "total_bytes" mem) [
        | some (int n) ↦ quot n mebibyte
        | some (int64 n) ↦ quot n mebibyte
        | some (float64 n f) ↦ quot n mebibyte
        | _ ↦ resolved.gpu_memory
      ]
    ]
  ];
  gpu_count = device_count overrides;
}

abbrev pub fields_or_empty : Option Fields → Fields
fields_or_empty none = end
fields_or_empty (some m) = m

module _ (p : Platform) where
  -- profile.Load
  unfoldable pub load : p.State → String → String → Result Fields
  load s namespace profile_name = do
    cm ← p.get_config_map s namespace (String.◌++◌ "gpu-profile-" profile_name)
    elim (lookup "profile.yaml" cm.contents) [
      | none ↦ err missing_key
      | some text ↦ p.unmarshal_fields text
    ]

  unfoldable pub resolve_with_profile :
      p.State → String → GpuConfig → ResolvedPool → Result ResolvedPool
  unfolding load merge extract
  resolve_with_profile s namespace gpu resolved = do
    base ← load s namespace gpu.profile
    let spec = extract (merge base (fields_or_empty gpu.overrides))
    ok (record resolved {
      gpu_product = spec.gpu_product;
      gpu_memory = spec.gpu_memory;
      gpu_count = spec.gpu_count;
      driver_version = spec.driver_version;
      cuda_version = spec.cuda_version;
    })

  unfoldable pub resolve_node_pool : p.State → String → NodePoolConfig → Result ResolvedPool
  unfolding collect_devices sort_devices resolve_with_profile resolve_from_overrides
  resolve_node_pool s namespace pool =
      let resolved = unresolved (sort_devices (collect_devices pool.resources)) in
      if pool.gpu.profile == ""
      then ok (resolve_from_overrides pool.gpu.overrides resolved)
      else resolve_with_profile s namespace pool.gpu resolved
