-- ===== src/Tests/Gpus.antt =====
-- A claim of two GPUs, one of them with time slicing, that a node prepares.
use Prim.Native.String
use fake_gpu_operator.Base.{
  String, true, false, ◌≡◌, refl, Option, none, some, List, [], ◌∷◌, All, ◌==◌, eq_iff, true,
}
use mathlib.Core.Bool.{false≢true}
use fake_gpu_operator.Base.Dict.{lookup, insert}
use fake_gpu_operator.Base.Replace.{replace_char}
use fake_gpu_operator.Base.Result.{ok}
use fake_gpu_operator.Platform.{AllocationResult}
use fake_gpu_operator.GpuPlugin.{GpuPlatform, Allocation, PreparedGpu, OpaqueDeviceConfig}
use fake_gpu_operator.GpuPlugin.Prepare.{
  prepare_devices, get_claim_devices, get_opaque_device_configs, default_config,
}
use fake_gpu_operator.GpuPlugin.Exact.{count, of_result, of_prepared, prepare_devices_exact}
use fake_gpu_operator.GpuPlugin.Configured.{IsConfigured, Asks, prepare_devices-IsConfigured}

-- A configuration is its strategy; the default one shares nothing.
abbrev platform : GpuPlatform
platform = record {
  Object = Option String;
  decode = λ text. ok (some text);
  default_gpu_config = none;
  GpuConfig = Option String;
  as_gpu_config = λ config. some config;
  normalize = λ config. ok config;
  validate = λ config. ok tt;
  strategy = λ config. config;
  is_time_slicing = λ config. elim config [ none ↦ false | some s ↦ s == "TimeSlicing" ];
  time_slice_interval = λ config. ok "Default";
  is_space_partitioning = λ config. false;
  partition_count = λ config. ok "1";
  State = Unit {0};
  write_spec = λ s spec name. (s, ok tt);
  remove_spec = λ s name. (s, ok tt);
  minimum_version = λ devices. ok "0.6.0";
  transient_spec_name = λ uid. uid;
  qualified_name = λ name. name;
  says_not_found = λ e. true;
}

abbrev first : AllocationResult
first = record { request = "a"; driver = "gpu.nvidia.com"; pool = "node-1"; device = "gpu-1" }

abbrev second : AllocationResult
second = record { request = "b"; driver = "gpu.nvidia.com"; pool = "node-1"; device = "gpu-2" }

abbrev allocation : Allocation
allocation = record {
  configs =
      record {
        requests = "b" ∷ [];
        opaque_config = some (record { driver = "gpu.nvidia.com"; parameters = "TimeSlicing" });
      }
      ∷ record {
        requests = [];
        opaque_config = some (record { driver = "other"; parameters = "" });
      }
      ∷ [];
  results = first ∷ second ∷ [];
}

abbrev configs : List (OpaqueDeviceConfig platform)
configs = record { requests = "b" ∷ []; config = some "TimeSlicing" } ∷ []

abbrev prepared_gpu : String → String → List String → PreparedGpu
prepared_gpu request device env = record {
  request_names = request ∷ [];
  pool_name = "node-1";
  device_name = device;
  cdi_device_ids = "common" ∷ String.◌++◌ "uid-" device ∷ [];
  env = some env;
}

abbrev devices : List PreparedGpu
devices =
    prepared_gpu "a" "gpu-1" ("GPU_DEVICE_gpu_1=gpu-1" ∷ [])
    ∷ prepared_gpu "b" "gpu-2" (
        "GPU_DEVICE_gpu_2=gpu-2" ∷ "GPU_DEVICE_gpu_2_SHARING_STRATEGY=TimeSlicing"
        ∷ "GPU_DEVICE_gpu_2_TIMESLICE_INTERVAL=Default" ∷ [])
    ∷ []

preparing :
    prepare_devices platform
      ("gpu-1" ∷ "gpu-2" ∷ [])
      (record { uid = "uid"; allocation = some allocation })
    ≡ ok devices
unfolding prepare_devices lookup insert replace_char get_claim_devices
preparing = refl

found : get_opaque_device_configs platform allocation.configs ≡ ok configs
unfolding get_opaque_device_configs
found = refl

prepare_devices_exact_example :
    count (of_prepared (λ request pool device. request == "b")) devices
    ≡ count (of_result (λ request pool device. request == "b")) allocation.results
prepare_devices_exact_example =
    prepare_devices_exact platform (λ request pool device. request == "b") ("gpu-1" ∷ "gpu-2" ∷ [])
      "uid" allocation devices preparing

asks : All (Asks platform configs "b" "gpu-2") allocation.results
asks = (λ h. absurd (false≢true ((eq_iff "gpu-1" "gpu-2").1 h)), (λ h. refl, tt))

prepare_devices-IsConfigured_example :
    All (IsConfigured platform (default_config platform ∷ configs) "b" "gpu-2") devices
prepare_devices-IsConfigured_example =
    prepare_devices-IsConfigured platform ("gpu-1" ∷ "gpu-2" ∷ []) "uid" allocation configs "b"
      "gpu-2" devices found asks preparing
