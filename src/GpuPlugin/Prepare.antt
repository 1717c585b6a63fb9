-- ===== src/GpuPlugin/Prepare.antt =====
-- internal/dra-plugin-gpu/state.go and cdi.go: Prepare and Unprepare.
use Prim.Native.String
use fake_gpu_operator.Base.{
  ℕ, suc, String, Bool, true, Option, none, some, List, [], ◌∷◌, ◌++◌, any, map, nat_beq, ◌==◌,
  if◌then◌else◌,
}
use fake_gpu_operator.Base.Dict.{Dict, lookup, insert}
use fake_gpu_operator.Base.Result.{
  Result, ok, err, panic, ◌>>=◌, ◌>>◌, or_err, not_allocated, not_allocatable, bad_config,
}
use fake_gpu_operator.Base.Effect as Effect
use fake_gpu_operator.Base.Effect.{Eff, lift}
use fake_gpu_operator.Platform.{AllocationResult}
use fake_gpu_operator.DomainPlugin.{OpaqueConfig}
use fake_gpu_operator.GpuPlugin.{
  GpuPlatform, AllocationConfig, Allocation, GpuClaim, PreparedGpu, OpaqueDeviceConfig, Group,
  gpu_driver_name, sanitize_device_name_for_env_var,
}

module _ (p : GpuPlatform) where
  -- A configuration of the driver is decoded; another one is left out.
  abbrev pub add_config :
      List String
      → Option OpaqueConfig
      → Result (List (OpaqueDeviceConfig p))
      → Result (List (OpaqueDeviceConfig p))
  add_config requests none rest = rest
  add_config requests (some opaque) rest =
      if opaque.driver == gpu_driver_name
      then (p.decode opaque.parameters >>= λ config.
          rest >>= λ configs. ok (record { requests = requests; config = config } ∷ configs))
      else rest

  unfoldable pub get_opaque_device_configs :
      List AllocationConfig → Result (List (OpaqueDeviceConfig p))
  get_opaque_device_configs [] = ok []
  get_opaque_device_configs (config ∷ rest) =
      add_config config.requests config.opaque_config (get_opaque_device_configs rest)

  abbrev pub is_for : List String → String → Bool
  is_for [] request = true
  is_for (r ∷ rs) request = any (λ name. name == request) (r ∷ rs)

  abbrev pub or_else : {A : Type 0} → Option A → Option A → Option A
  or_else (some a) other = some a
  or_else none other = other

  -- The last configuration for a request, with its place, counted from `i`.
  unfoldable pub config_for : String → ℕ → List (OpaqueDeviceConfig p) → Option (ℕ × p.Object)
  config_for request i [] = none
  config_for request i (c ∷ cs) =
      or_else (config_for request (suc i) cs)
        (if is_for c.requests request then some (i, c.config) else none)

  unfoldable pub add_result : ℕ → p.Object → AllocationResult → List (Group p) → List (Group p)
  add_result i config result [] = record { place = i; config = config; results = result ∷ [] } ∷ []
  add_result i config result (g ∷ gs) =
      let rest = add_result i config result gs in
      if nat_beq g.place i then record g { results = g.results ++ result ∷ [] } ∷ gs else g ∷ rest

  abbrev pub add_chosen : Option (ℕ × p.Object) → AllocationResult → List (Group p) → List (Group p)
  add_chosen none result groups = groups
  add_chosen (some (i, config)) result groups = add_result i config result groups

  -- The loop over the results; a device that is not allocatable ends it.
  unfoldable pub group_results :
      List String
      → List (OpaqueDeviceConfig p)
      → List AllocationResult
      → List (Group p)
      → Result (List (Group p))
  unfolding config_for add_result
  group_results allocatable configs [] groups = ok groups
  group_results allocatable configs (result ∷ rest) groups =
      let next =
        group_results allocatable configs rest
          (add_chosen (config_for result.request 0 configs) result groups) in
      if any (λ name. name == result.device) allocatable then next else err not_allocatable

  abbrev pub env_name : String → String → String → String
  env_name id suffix value =
      String.◌++◌ "GPU_DEVICE_" (String.◌++◌ id (String.◌++◌ suffix (String.◌++◌ "=" value)))

  -- The variable of the kind of sharing.
  abbrev pub mode_envs : p.GpuConfig → String → Result (List String)
  mode_envs config id =
      if p.is_time_slicing config
      then (p.time_slice_interval config >>= λ interval.
          ok (env_name id "_TIMESLICE_INTERVAL" interval ∷ []))
      else if p.is_space_partitioning config
      then (p.partition_count config >>= λ count. ok (env_name id "_PARTITION_COUNT" count ∷ []))
      else ok []

  abbrev pub strategy_envs : Option String → String → List String
  strategy_envs none id = []
  strategy_envs (some strategy) id = env_name id "_SHARING_STRATEGY" strategy ∷ []

  -- The environment of one device.
  unfoldable pub envs_of : p.GpuConfig → String → Result (List String)
  unfolding sanitize_device_name_for_env_var
  envs_of config device =
      let id = sanitize_device_name_for_env_var device in
      mode_envs config id >>= λ mode.
      ok (env_name id "" device ∷ (strategy_envs (p.strategy config) id ++ mode))

  unfoldable pub apply_config :
      p.GpuConfig → List AllocationResult → Dict (List String) → Result (Dict (List String))
  unfolding envs_of
  apply_config config [] edits = ok edits
  apply_config config (result ∷ rest) edits = envs_of config result.device >>= λ envs.
      apply_config config rest (insert result.device envs edits)

  abbrev pub merge_edits : Dict (List String) → Dict (List String) → Dict (List String)
  merge_edits [] edits = edits
  merge_edits ((device, envs) ∷ rest) edits = merge_edits rest (insert device envs edits)

  -- The configuration of an object: normalized and valid.
  unfoldable pub usable_config : p.Object → Result p.GpuConfig
  usable_config object = or_err (p.as_gpu_config object) bad_config >>= λ raw.
      p.normalize raw >>= λ config. p.validate config >> ok config

  -- The loop over the configurations.
  unfoldable pub apply_configs : List (Group p) → Dict (List String) → Result (Dict (List String))
  unfolding usable_config apply_config
  apply_configs [] edits = ok edits
  apply_configs (g ∷ gs) edits = usable_config g.config >>= λ config.
      apply_config config g.results [] >>= λ new. apply_configs gs (merge_edits new edits)

  abbrev pub claim_device : String → String → String
  claim_device uid device = String.◌++◌ uid (String.◌++◌ "-" device)

  unfoldable pub get_claim_devices : String → String → List String
  get_claim_devices uid device =
      p.qualified_name "common" ∷ p.qualified_name (claim_device uid device) ∷ []

  abbrev pub prepared_gpu : String → Dict (List String) → AllocationResult → PreparedGpu
  prepared_gpu uid edits result = record {
    request_names = result.request ∷ [];
    pool_name = result.pool;
    device_name = result.device;
    cdi_device_ids = get_claim_devices uid result.device;
    env = lookup result.device edits;
  }

  unfoldable pub prepared_gpus : String → Dict (List String) → List (Group p) → List PreparedGpu
  prepared_gpus uid edits [] = []
  prepared_gpus uid edits (g ∷ gs) =
      map (prepared_gpu uid edits) g.results ++ prepared_gpus uid edits gs

  abbrev pub default_config : OpaqueDeviceConfig p
  default_config = record { requests = []; config = p.default_gpu_config }

  unfoldable pub prepare_allocated : List String → String → Allocation → Result (List PreparedGpu)
  unfolding get_opaque_device_configs group_results apply_configs prepared_gpus
  prepare_allocated allocatable uid allocation =
      get_opaque_device_configs allocation.configs >>= λ configs.
      group_results allocatable (default_config ∷ configs) allocation.results [] >>= λ groups.
      apply_configs groups [] >>= λ edits. ok (prepared_gpus uid edits groups)

  unfoldable pub prepare_devices : List String → GpuClaim → Result (List PreparedGpu)
  unfolding prepare_allocated
  prepare_devices allocatable claim =
      or_err claim.allocation not_allocated >>= prepare_allocated allocatable claim.uid

  abbrev pub spec_device : String → PreparedGpu → String × List String
  spec_device uid device =
      (claim_device uid device.device_name, elim device.env [ none ↦ [] | some env ↦ env ])

  unfoldable pub create_claim_spec_file : String → List PreparedGpu → Eff p.State (Unit {0})
  create_claim_spec_file uid devices =
      Effect.◌>>=◌ (lift (p.minimum_version (map (spec_device uid) devices))) (λ version s.
        p.write_spec s
          (record {
            version = version;
            kind = "k8s.gpu.nvidia.com/gpu";
            devices = map (spec_device uid) devices;
          })
          (p.transient_spec_name uid))

  unfoldable pub prepare : List String → GpuClaim → Eff p.State (List PreparedGpu)
  unfolding prepare_devices create_claim_spec_file
  prepare allocatable claim =
      Effect.◌>>=◌ (lift (prepare_devices allocatable claim))
        (λ devices. Effect.◌>>◌ (create_claim_spec_file claim.uid devices) (lift (ok devices)))

  -- An error that says that there is no such file is none.
  abbrev pub forgive : Result (Unit {0}) → Result (Unit {0})
  forgive (ok _) = ok tt
  forgive (err e) = if p.says_not_found e then ok tt else err e
  forgive panic = panic

  unfoldable pub unprepare : String → Eff p.State (Unit {0})
  unprepare uid s = let (s', r) = p.remove_spec s (p.transient_spec_name uid) in (s', forgive r)
