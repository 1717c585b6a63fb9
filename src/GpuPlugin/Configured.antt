-- ===== src/GpuPlugin/Configured.antt =====
-- A prepared device has the environment of the configuration for its request.
use fake_gpu_operator.Base.{
  ℕ, ◌≡◌, refl, sym, ap, ◌∙◌, subst, String, true, inl, inr, Option, none, some, List, [], ◌∷◌,
  ◌++◌, any, map, All, nat_beq, nat_beq→eq, ◌==◌, arith, Bool-cases,
}
use mathlib.Core.Option.{some-injective}
use fake_gpu_operator.Base.Result.{
  ok, ◌>>=◌, ◌>>◌, or_err, bad_config, >>=-eq-ok, ok-injective, err-ne-ok,
}
use fake_gpu_operator.Platform.{AllocationResult}
use fake_gpu_operator.GpuPlugin.{GpuPlatform, Allocation, PreparedGpu, OpaqueDeviceConfig, Group}
use fake_gpu_operator.GpuPlugin.Edits.{
  Edits, has, HasAll, GroupGives, Gives, apply_configs-HasAll, apply_configs-All, lookup-All,
}
use fake_gpu_operator.GpuPlugin.Prepare.{
  get_opaque_device_configs, config_for, add_result, group_results, apply_configs, prepared_gpu,
  prepared_gpus, default_config, prepare_allocated, prepare_devices, add_chosen, usable_config,
  envs_of,
}
use fake_gpu_operator.GpuPlugin.Last.{LastFor, object_at, object_at-LastFor, config_for-LastFor}

module _ (p : GpuPlatform) where
  -- The object is a GPU configuration, which is normalized to `config`, and that is valid.
  pub record IsUsable (object : p.Object) (config : p.GpuConfig) : Type 0 where
    pub raw : p.GpuConfig
    pub is_gpu_config : p.as_gpu_config object ≡ some raw
    pub normalized : p.normalize raw ≡ ok config
    pub valid : p.validate config ≡ ok tt

  or_err-ok :
      (o : Option p.GpuConfig) (raw : p.GpuConfig) → or_err o bad_config ≡ ok raw → o ≡ some raw
  or_err-ok none raw e = absurd (err-ne-ok e)
  or_err-ok (some raw') raw e = ap some (ok-injective e)

  usable_config-IsUsable :
      (object : p.Object) (config : p.GpuConfig)
      → usable_config p object ≡ ok config
      → IsUsable object config
  unfolding usable_config
  usable_config-IsUsable object config e =
      let (raw, is, e2) =
        >>=-eq-ok (or_err (p.as_gpu_config object) bad_config)
          (λ raw. p.normalize raw >>= λ config. p.validate config >> ok config) e in
      let (config', normal, e3) =
        >>=-eq-ok (p.normalize raw) (λ config. p.validate config >> ok config) e2 in
      let (u, valid, e4) = >>=-eq-ok (p.validate config') (λ _. ok config') e3 in
      let same = ok-injective e4 in
      record {
        raw = raw;
        is_gpu_config = or_err-ok (p.as_gpu_config object) raw is;
        normalized = normal ∙ e4;
        valid = subst (λ c. p.validate c ≡ ok tt) same valid;
      }

  -- Of the results, those for the device `device` are of the request `request`.
  module _ (configs : List (OpaqueDeviceConfig p)) (request device : String) where
    abbrev Fits : ℕ → p.Object → AllocationResult → Type 0
    Fits n object r = r.device ≡ device → LastFor p request configs n object

    abbrev pub Asks : AllocationResult → Type 0
    Asks r = r.device ≡ device → r.request ≡ request

    -- The configuration of a group is the last one for the device's result, if that is in it.
    abbrev IsGroup : Group p → Type 0
    IsGroup g =
        (object_at p configs g.place ≡ some g.config) × All (Fits g.place g.config) g.results

    All-append :
        (P : AllocationResult → Type 0) (rs : List AllocationResult) (r : AllocationResult)
        → All P rs
        → P r
        → All P (rs ++ r ∷ [])
    All-append P [] r a h = (h, tt)
    All-append P (x ∷ rs) r (a, rest) h = (a, All-append P rs r rest h)

    add_result-IsGroup :
        (i : ℕ) (object : p.Object) (r : AllocationResult) (gs : List (Group p))
        → object_at p configs i ≡ some object
        → Fits i object r
        → All IsGroup gs
        → All IsGroup (add_result p i object r gs)
    unfolding add_result
    add_result-IsGroup i object r [] o l all = ((o, (l, tt)), tt)
    add_result-IsGroup i object r (g ∷ gs) o l ((at, fit), all) =
        elim (Bool-cases (nat_beq g.place i)) [
          | inl e ↦
              let same : i ≡ g.place = sym (nat_beq→eq g.place i e) in
              let same_object : object ≡ g.config =
                some-injective object g.config (sym o ∙ ap (object_at p configs) same ∙ at) in
              rw e (
                (
                  at,
                  All-append (Fits g.place g.config) g.results r fit (
                      subst (λ x. Fits g.place x r) same_object
                        (subst (λ n. Fits n object r) same l)),
                ),
                all,
              )
          | inr e ↦ rw e ((at, fit), add_result-IsGroup i object r gs o l all)
        ]

    group_results-IsGroup :
        (allocatable : List String) (rs : List AllocationResult) (gs gs' : List (Group p))
        → group_results p allocatable configs rs gs ≡ ok gs'
        → All Asks rs
        → All IsGroup gs
        → All IsGroup gs'
    unfolding group_results
    group_results-IsGroup allocatable [] gs gs' e asks all =
        subst (All IsGroup) (ok-injective e) all
    group_results-IsGroup allocatable (r ∷ rs) gs gs' e (ask, asks) all =
        elim (Bool-cases (any (λ name. name == r.device) allocatable)) [
          | inl h ↦
              group_results-IsGroup allocatable rs
                (add_chosen p (config_for p r.request 0 configs) r gs) gs' (rw h at e) asks
                (go (config_for p r.request 0 configs) refl)
          | inr h ↦ absurd (err-ne-ok (rw h at e))
        ]
      where
        go :
            (o : Option (ℕ × p.Object))
            → config_for p r.request 0 configs ≡ o
            → All IsGroup (add_chosen p o r gs)
        go none e' = all
        go (some (j, object)) e' =
            let (n, at, l) = config_for-LastFor p r.request 0 j configs object e' in
            let same : n ≡ j = omega (arith, at) in
            let l' = subst (λ m. LastFor p r.request configs m object) same l in
            add_result-IsGroup j object r gs (object_at-LastFor p l')
              (λ h. subst (λ q. LastFor p q configs j object) (ask h) l') all

    -- The environment of the device is the one that its configuration gives.
    abbrev IsGiven : String × List String → Type 0
    IsGiven (d, envs) =
        d ≡ device
        → (n : ℕ) × (object : p.Object) × (config : p.GpuConfig) × LastFor p request configs n
            object
          × IsUsable object config
          × (envs_of p config device ≡ ok envs)

    given :
        (n : ℕ) (object : p.Object) (config : p.GpuConfig) (rs : List AllocationResult)
        → usable_config p object ≡ ok config
        → All (Fits n object) rs
        → All (Gives IsGiven p config) rs
    given n object config [] e fit = tt
    given n object config (r ∷ rs) e (f, fit) = (
      λ envs g h. (
        n,
        object,
        config,
        f h,
        usable_config-IsUsable object config e,
        subst (λ d. envs_of p config d ≡ ok envs) h g,
      ),
      given n object config rs e fit,
    )

    groups-IsGiven : (gs : List (Group p)) → All IsGroup gs → All (GroupGives p IsGiven) gs
    groups-IsGiven [] all = tt
    groups-IsGiven (g ∷ gs) ((at, fit), all) =
        (λ config e. given g.place g.config config g.results e fit, groups-IsGiven gs all)

    -- A prepared device has the environment of the last configuration for its request.
    abbrev pub IsConfigured : PreparedGpu → Type 0
    IsConfigured gpu =
        gpu.device_name ≡ device
        → (n : ℕ) × (object : p.Object) × (config : p.GpuConfig) × (envs : List String) × LastFor p
            request configs n object
          × IsUsable object config
          × (envs_of p config device ≡ ok envs)
          × (gpu.env ≡ some envs)

    All-join :
        (xs ys : List PreparedGpu)
        → All IsConfigured xs
        → All IsConfigured ys
        → All IsConfigured (xs ++ ys)
    All-join [] ys a b = b
    All-join (x ∷ xs) ys (h, a) b = (h, All-join xs ys a b)

    map-IsConfigured :
        (uid : String) (edits : Edits) (rs : List AllocationResult)
        → All IsGiven edits
        → All (λ (r : AllocationResult). has r.device edits ≡ true) rs
        → All IsConfigured (map (prepared_gpu p uid edits) rs)
    map-IsConfigured uid edits [] gives all = tt
    map-IsConfigured uid edits (r ∷ rs) gives (h, all) =
        let (envs, found, give) = lookup-All IsGiven r.device edits h gives in
        (
          λ same.
              let (n, object, config, last, usable, made) = give same in
              (n, object, config, envs, last, usable, made, found),
          map-IsConfigured uid edits rs gives all,
        )

    prepared_gpus-IsConfigured :
        (uid : String) (edits : Edits) (gs : List (Group p))
        → All IsGiven edits
        → All (HasAll p edits) gs
        → All IsConfigured (prepared_gpus p uid edits gs)
    unfolding prepared_gpus
    prepared_gpus-IsConfigured uid edits [] gives all = tt
    prepared_gpus-IsConfigured uid edits (g ∷ gs) gives (h, all) =
        All-join (map (prepared_gpu p uid edits) g.results) (prepared_gpus p uid edits gs)
          (map-IsConfigured uid edits g.results gives h)
          (prepared_gpus-IsConfigured uid edits gs gives all)

  -- A device that the claim allocates for one request is prepared with the environment that the last
  -- configuration for that request gives to it, the default one being the first; it is a GPU
  -- configuration, normalized and found valid, and the claim's configurations were decoded.
  pub prepare_devices-IsConfigured :
      (allocatable : List String) (uid : String) (allocation : Allocation)
      (configs : List (OpaqueDeviceConfig p)) (request device : String) (devices : List PreparedGpu)
      → get_opaque_device_configs p allocation.configs ≡ ok configs
      → All (Asks configs request device) allocation.results
      → prepare_devices p allocatable (record { uid = uid; allocation = some allocation })
        ≡ ok devices
      → All (IsConfigured (default_config p ∷ configs) request device) devices
  unfolding prepare_devices prepare_allocated
  prepare_devices-IsConfigured allocatable uid allocation configs request device devices c asks e =
      let known = default_config p ∷ configs in
      let (groups, e2, h2) =
        >>=-eq-ok (group_results p allocatable known allocation.results [])
          (λ groups. apply_configs p groups [] >>= λ edits. ok (prepared_gpus p uid edits groups))
          (rw c at e) in
      let (edits, e3, h3) =
        >>=-eq-ok (apply_configs p groups []) (λ edits. ok (prepared_gpus p uid edits groups)) h2 in
      let fit =
        group_results-IsGroup known request device allocatable allocation.results [] groups e2 asks
          tt in
      let gives =
        apply_configs-All p (IsGiven known request device) groups [] edits
          (groups-IsGiven known request device groups fit) e3 tt in
      subst (All (IsConfigured known request device)) (ok-injective h3) (
        prepared_gpus-IsConfigured known request device uid edits groups gives
          (apply_configs-HasAll p groups [] edits e3))
