-- ===== src/Topology/RoundTrip.antt =====
-- A pool in the old format, normalized and resolved, has the GPUs that it was declared with.
use fake_gpu_operator.Base.{
  ℕ, ◌*◌, ◌^◌, ◌<◌, String, Bool, false, ◌||◌, ◌&&◌, not, ◌≡◌, refl, ap, none, some, List, arith,
  Bool-cases, inl, inr, ◌∙◌,
}
use fake_gpu_operator.Base.Int.{pos, scale, wrap_int64, wrap_int64-pos, quot}
use fake_gpu_operator.Base.Result.{ok}
use fake_gpu_operator.Profile.Yaml.{
  Fields, array, end, field, object, get, length_values-replicate_values, replicate_values,
}
use fake_gpu_operator.Topology.{GenericDevice, NodePoolTopology, NodePoolConfig}
use fake_gpu_operator.Topology.Normalize.{
  normalize_node_pool, has_key, device_defaults, scan_pools, is_new_format, resources_of,
}
use fake_gpu_operator.Topology.Resolve.{
  ResolvedPool, resolve_node_pool, collect_devices, sort_devices, unresolved,
}
use fake_gpu_operator.Platform.{Platform}

memory_roundtrip :
    (m : ℕ) → m < 2 ^ 43 → quot (wrap_int64 (scale (pos m) (1024 * 1024))) (1024 * 1024) ≡ pos m
memory_roundtrip m h = rw (wrap_int64-pos (m * 1048576) (omega arith)) (ap pos (omega arith))

-- What the devices of a pool resolve to: by name, less the GPU resource.
abbrev pub resolved_devices : List GenericDevice → List GenericDevice
resolved_devices devices = sort_devices (collect_devices (resources_of devices))

-- The pool that a declaration in the old format stands for.
abbrev pub declared : NodePoolTopology → ResolvedPool
declared old = record (unresolved (resolved_devices old.other_devices)) {
  gpu_product = old.gpu_product;
  gpu_memory = old.gpu_memory;
  gpu_count = old.gpu_count;
}

-- What it normalizes to, with `n` devices.
abbrev pub normalized : NodePoolTopology → ℕ → NodePoolConfig
normalized old n = record {
  gpu = record {
    backend = "fake";
    profile = "";
    overrides = some (
        field "device_defaults" (object (device_defaults old))
          (field "devices" (array (replicate_values n (object end))) end));
  };
  numa = none;
  resources = resources_of old.other_devices;
}

pub resolve-normalize :
    (p : Platform) (s : p.State) (namespace : String) (old : NodePoolTopology) (m n : ℕ)
    → old.gpu_memory ≡ pos m
    → old.gpu_count ≡ pos n
    → m < 2 ^ 43
    → (config : NodePoolConfig) × (normalize_node_pool old ≡ ok config)
      × (resolve_node_pool p s namespace config ≡ ok (declared old))
unfolding normalize_node_pool resolve_node_pool get
resolve-normalize p s namespace old m n memory count fits = (
  normalized old n,
  rw count refl,
  rw (count, memory, memory_roundtrip m fits, length_values-replicate_values n (object end)) refl,
)

-- Some pool that is a map passes the test.
abbrev pub any_pool : (Fields → Bool) → Fields → Bool
any_pool test end = false
any_pool test (field name (object pool) pools) = test pool || any_pool test pools
any_pool test (field name v pools) = any_pool test pools

abbrev pub has_legacy_marker : Fields → Bool
has_legacy_marker pool = has_key "gpuProduct" pool || has_key "gpuCount" pool

or_assoc : (a b c : Bool) → ((a || b) || c) ≡ (a || (b || c))
or_assoc a b c = ground arith

scan_pools-any :
    (pools : Fields) (legacy : Bool)
    → ((scan_pools pools legacy).0 ≡ any_pool (has_key "gpu") pools)
      × (any_pool (has_key "gpu") pools ≡ false
          → (scan_pools pools legacy).1 ≡ (legacy || any_pool has_legacy_marker pools))
unfolding scan_pools
scan_pools-any end legacy = (refl, λ h. ground arith)
scan_pools-any (field name (object pool) pools) legacy =
    let ih = scan_pools-any pools (legacy || has_legacy_marker pool) in
    elim (Bool-cases (has_key "gpu" pool)) [
      | inl e ↦ rw e (refl, λ h. cc)
      | inr e ↦ rw e (ih.0, λ h. ih.1 h ∙ or_assoc legacy _ _)
    ]
scan_pools-any (field name v pools) legacy = scan_pools-any pools legacy

-- The format does not depend on the order in which Go iterates over the pools: some pool has a gpu
-- block, or else no pool has a field of the old format and there is a gpuOperator key.
pub is_new_format-any :
    (raw pools : Fields)
    → get "nodePools" raw ≡ some (object pools)
    → is_new_format raw ≡ (
        any_pool (has_key "gpu") pools
        || (not (any_pool has_legacy_marker pools) && has_key "gpuOperator" raw))
unfolding is_new_format
is_new_format-any raw pools h =
    let scan = scan_pools-any pools false in
    rw (h, is_new_format)
      (elim (Bool-cases (any_pool (has_key "gpu") pools)) [
        | inl e ↦ rw (scan.0, e) refl
        | inr e ↦ rw (scan.0, e, scan.1 e) (ground arith)
      ])
