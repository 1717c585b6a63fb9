-- ===== src/GpuPlugin.antt =====
-- internal/dra-plugin-gpu: state.go and cdi.go, the GPUs of a claim that the DRA plugin of a node
-- prepares, with the configurations that apply to them.
pub mod Prepare
pub mod Exact
pub mod Edits
pub mod Last
pub mod Configured
use Prim.Native.String
use fake_gpu_operator.Base.{
  ℕ, suc, String, Bool, Option, none, some, List, [], ◌∷◌, ◌++◌, any, map, nat_beq, ◌==◌,
  if◌then◌else◌,
}
use fake_gpu_operator.Base.Dict.{Dict, lookup, insert}
use fake_gpu_operator.Base.Replace.{replace_char}
use fake_gpu_operator.Base.Result.{
  Result, ok, err, panic, ◌>>=◌, ◌>>◌, or_err, Error, not_allocated, not_allocatable, bad_config,
}
use fake_gpu_operator.Base.Effect.{Eff, lift}
use fake_gpu_operator.Base.Effect as Effect
use fake_gpu_operator.Platform.{AllocationResult}
use fake_gpu_operator.DomainPlugin.{OpaqueConfig}

-- DeviceAllocationConfiguration: the requests that it is for, and its opaque part.
pub record AllocationConfig : Type 0 where
  pub requests : List String
  pub opaque_config : Option OpaqueConfig

pub record Allocation : Type 0 where
  pub configs : List AllocationConfig
  pub results : List AllocationResult

pub record GpuClaim : Type 0 where
  pub uid : String
  pub allocation : Option Allocation

pub record PreparedGpu : Type 0 where
  pub request_names : List String
  pub pool_name : String
  pub device_name : String
  pub cdi_device_ids : List String
  pub env : Option (List String)

pub record GpuSpec : Type 0 where
  pub version : String
  pub kind : String
  pub devices : List (String × List String)

-- The API of dra-example-driver, whose configurations are decoded and read, the CDI libraries and
-- the files of the node. `strategy` is none where the configuration has no sharing; the interval and
-- the count are printed.
pub record GpuPlatform : Type 1 where
  pub Object : Type 0
  pub decode : String → Result Object
  pub default_gpu_config : Object
  pub GpuConfig : Type 0
  pub as_gpu_config : Object → Option GpuConfig
  pub normalize : GpuConfig → Result GpuConfig
  pub validate : GpuConfig → Result (Unit {0})
  pub strategy : GpuConfig → Option String
  pub is_time_slicing : GpuConfig → Bool
  pub time_slice_interval : GpuConfig → Result String
  pub is_space_partitioning : GpuConfig → Bool
  pub partition_count : GpuConfig → Result String
  pub State : Type 0
  pub write_spec : State → GpuSpec → String → State × Result (Unit {0})
  pub remove_spec : State → String → State × Result (Unit {0})
  pub minimum_version : List (String × List String) → Result String
  pub transient_spec_name : String → String
  pub qualified_name : String → String
  -- strings.Contains(err.Error(), "not found")
  pub says_not_found : Error → Bool

abbrev pub gpu_driver_name : String
gpu_driver_name = "gpu.nvidia.com"

unfoldable pub sanitize_device_name_for_env_var : String → String
sanitize_device_name_for_env_var name = replace_char b'-' "_" name

module _ (p : GpuPlatform) where
  pub record OpaqueDeviceConfig : Type 0 where
    pub requests : List String
    pub config : p.Object

  -- The results that one configuration is for; it is known by its place in the list.
  pub record Group : Type 0 where
    pub place : ℕ
    pub config : p.Object
    pub results : List AllocationResult
