-- ===== src/Profile.antt =====
-- internal/common/profile/profile.go: GPU profiles and what the components read of them. `Load` is
-- in Topology/Resolve, with the API server that it reads from.
pub mod Yaml
pub mod Merge
pub mod Paths
use fake_gpu_operator.Base.{ℕ, String, ◌*◌, Option, none, some, Bool, true, false, if◌then◌else◌}
use fake_gpu_operator.Base.Int.{ℤ, pos, quot, ltb_ℤ}
use Yaml.{
  Value, null, boolean, str, int, int64, float64, array, object, Values, nil, cons, Fields, end,
  field, get, put, length_values,
}

pub record GpuSpec : Type 0 where
  pub gpu_product : String
  pub gpu_memory : ℤ
  pub gpu_count : ℤ
  pub architecture : String
  pub driver_version : String
  pub cuda_version : String

abbrev pub empty_spec : GpuSpec
empty_spec = record {
  gpu_product = "";
  gpu_memory = pos 0;
  gpu_count = pos 0;
  architecture = "";
  driver_version = "";
  cuda_version = "";
}

-- Merge walks the overrides over a copy of the base: an entry that is a map on both sides is
-- merged, any other is replaced. `copyMap` is the identity on a value.
unfoldable mutual
  pub merge : Fields → Fields → Fields
  merge base end = base
  merge base (field key value rest) = merge (put key (merge_value (get key base) value) base) rest

  pub merge_value : Option Value → Value → Value
  merge_value (some (object base)) (object overrides) = object (merge base overrides)
  merge_value _ (object overrides) = object overrides
  merge_value _ null = null
  merge_value _ (boolean b) = boolean b
  merge_value _ (str s) = str s
  merge_value _ (int n) = int n
  merge_value _ (int64 n) = int64 n
  merge_value _ (float64 n f) = float64 n f
  merge_value _ (array vs) = array vs

-- `spec.X, _ = m[key].(string)`: the empty string on a missing key or another type.
abbrev pub string_at : String → Fields → String
string_at key m = elim (get key m) [ some (str s) ↦ s | _ ↦ "" ]

-- getMap
unfoldable pub get_map : Fields → String → Option Fields
get_map m key = elim (get key m) [ some (object o) ↦ some o | _ ↦ none ]

abbrev pub mebibyte : ℕ
mebibyte = 1024 * 1024

-- toMiB; a missing key reads as nil.
unfoldable pub to_mib : Option Value → ℤ
to_mib v = elim v [
  | some (int n) ↦ quot n mebibyte
  | some (int64 n) ↦ quot n mebibyte
  | some (float64 n f) ↦ quot n mebibyte
  | _ ↦ pos 0
]

-- The type switch on profile["device_count"].
abbrev pub number_at : String → Fields → ℤ
number_at key m = elim (get key m) [
  | some (int n) ↦ n
  | some (int64 n) ↦ n
  | some (float64 n f) ↦ n
  | _ ↦ pos 0
]

unfoldable pub device_count : Fields → ℤ
device_count profile =
    let count = number_at "device_count" profile in
    if ltb_ℤ (pos 0) count then count else elim (get "devices" profile) [
      | some (array devices) ↦ pos (length_values devices)
      | _ ↦ pos 0
    ]

-- The two sections that Extract reads; a missing one leaves the zero values.
abbrev pub extract_defaults : Option Fields → GpuSpec → GpuSpec
extract_defaults none spec = spec
extract_defaults (some dd) spec = record spec {
  gpu_product = string_at "name" dd;
  architecture = string_at "architecture" dd;
  gpu_memory = elim (get_map dd "memory") [
    | some mem ↦ to_mib (get "total_bytes" mem)
    | none ↦ spec.gpu_memory
  ];
}

abbrev pub extract_system : Option Fields → GpuSpec → GpuSpec
extract_system none spec = spec
extract_system (some sys) spec = record spec {
  driver_version = string_at "driver_version" sys;
  cuda_version = string_at "cuda_version" sys;
}

-- Extract; a nil profile has no field.
unfoldable pub extract : Fields → GpuSpec
extract profile =
    record (extract_system (get_map profile "system")
      (extract_defaults (get_map profile "device_defaults") empty_spec)) {
        gpu_count = device_count profile;
      }
