-- ===== src/GpuPlugin/Exact.antt =====
-- Every allocation result of a claim is prepared exactly once.
use fake_gpu_operator.Base.{
  ℕ, suc, ◌+◌, ◌≡◌, refl, sym, ap, ◌∙◌, String, Bool, false, inl, inr, Option, none, some, List, [],
  ◌∷◌, ◌++◌, any, map, ◌==◌, if◌then◌else◌, arith, Bool-cases,
}
use fake_gpu_operator.Base.Dict.{Dict}
use fake_gpu_operator.Base.Result.{ok, ◌>>=◌, >>=-eq-ok, ok-injective, err-ne-ok}
use fake_gpu_operator.Platform.{AllocationResult}
use fake_gpu_operator.GpuPlugin.{GpuPlatform, Allocation, PreparedGpu, OpaqueDeviceConfig, Group}
use fake_gpu_operator.GpuPlugin.Prepare.{
  get_opaque_device_configs, config_for, add_result, group_results, apply_configs, prepared_gpu,
  prepared_gpus, default_config, prepare_allocated, prepare_devices, or_else,
}

abbrev pub count : {A : Type 0} → (A → Bool) → List A → ℕ
count f [] = 0
count f (x ∷ xs) = if f x then suc (count f xs) else count f xs

count-append :
    {A : Type 0} (f : A → Bool) (xs ys : List A) → count f (xs ++ ys) ≡ count f xs + count f ys
count-append f [] ys = omega arith
count-append f (x ∷ xs) ys = ground (arith, count-append f xs ys)

-- A test of the request, the pool and the device, on an allocation result and on a prepared device.
abbrev pub of_result : (String → String → String → Bool) → AllocationResult → Bool
of_result test result = test result.request result.pool result.device

abbrev pub of_prepared : (String → String → String → Bool) → PreparedGpu → Bool
of_prepared test device = elim device.request_names [
  | [] ↦ false
  | request ∷ _ ↦ test request device.pool_name device.device_name
]

module _ (p : GpuPlatform) (test : String → String → String → Bool) where
  -- The results in all groups that pass the test.
  abbrev grouped : List (Group p) → ℕ
  grouped [] = 0
  grouped (g ∷ gs) = count (of_result test) g.results + grouped gs

  abbrev one : AllocationResult → ℕ
  one result = if of_result test result then 1 else 0

  add_result-grouped :
      (i : ℕ) (config : p.Object) (r : AllocationResult) (gs : List (Group p))
      → grouped (add_result p i config r gs) ≡ grouped gs + one r
  unfolding add_result
  add_result-grouped i config r [] = ground arith
  add_result-grouped i config r (g ∷ gs) =
      let rest = add_result-grouped i config r gs in
      let joined = count-append (of_result test) g.results (r ∷ []) in ground (arith, rest, joined)

  config_for-default :
      (request : String) (configs : List (OpaqueDeviceConfig p))
      → (i : ℕ) × (config : p.Object) × (config_for p request 0 (default_config p ∷ configs)
          ≡ some (i, config))
  unfolding config_for
  config_for-default request configs = go (config_for p request 1 configs)
    where
      go :
          (later : Option (ℕ × p.Object))
          → (i : ℕ) × (config : p.Object) × (or_else p later (some (0, p.default_gpu_config))
              ≡ some (i, config))
      go none = (0, p.default_gpu_config, refl)
      go (some (i, config)) = (i, config, refl)

  group_results-grouped :
      (allocatable : List String) (configs : List (OpaqueDeviceConfig p))
      (rs : List AllocationResult) (gs gs' : List (Group p))
      → group_results p allocatable (default_config p ∷ configs) rs gs ≡ ok gs'
      → grouped gs' ≡ grouped gs + count (of_result test) rs
  unfolding group_results
  group_results-grouped allocatable configs [] gs gs' e =
      ap grouped (sym (ok-injective e)) ∙ omega arith
  group_results-grouped allocatable configs (r ∷ rs) gs gs' e =
      let (i, config, chosen) = config_for-default r.request configs in
      let placed = add_result-grouped i config r gs in
      elim (Bool-cases (any (λ name. name == r.device) allocatable)) [
        | inl h ↦
            let rest =
              group_results-grouped allocatable configs rs (add_result p i config r gs) gs'
                (rw (h, chosen) at e) in
            ground (arith, rest, placed)
        | inr h ↦ absurd (err-ne-ok (rw h at e))
      ]

  map-prepared_gpu :
      (uid : String) (edits : Dict (List String)) (rs : List AllocationResult)
      → count (of_prepared test) (map (prepared_gpu p uid edits) rs) ≡ count (of_result test) rs
  map-prepared_gpu uid edits [] = refl
  map-prepared_gpu uid edits (r ∷ rs) = rw (map-prepared_gpu uid edits rs) refl

  prepared_gpus-grouped :
      (uid : String) (edits : Dict (List String)) (gs : List (Group p))
      → count (of_prepared test) (prepared_gpus p uid edits gs) ≡ grouped gs
  unfolding prepared_gpus
  prepared_gpus-grouped uid edits [] = refl
  prepared_gpus-grouped uid edits (g ∷ gs) =
      let here = map-prepared_gpu uid edits g.results in
      let rest = prepared_gpus-grouped uid edits gs in
      count-append (of_prepared test) (map (prepared_gpu p uid edits) g.results)
        (prepared_gpus p uid edits gs)
      ∙ omega (arith, here, rest)

  -- The devices that are prepared for a claim are its allocation results, each once: as many of one
  -- sort as of the other pass any test of the request, the pool and the device.
  pub prepare_devices_exact :
      (allocatable : List String) (uid : String) (allocation : Allocation)
      (devices : List PreparedGpu)
      → prepare_devices p allocatable (record { uid = uid; allocation = some allocation })
        ≡ ok devices
      → count (of_prepared test) devices ≡ count (of_result test) allocation.results
  unfolding prepare_devices prepare_allocated
  prepare_devices_exact allocatable uid allocation devices e =
      let (configs, e1, h1) = >>=-eq-ok (get_opaque_device_configs p allocation.configs) _ e in
      let (groups, e2, h2) =
        >>=-eq-ok (group_results p allocatable (default_config p ∷ configs) allocation.results [])
          (λ groups. apply_configs p groups [] >>= λ edits. ok (prepared_gpus p uid edits groups))
          h1 in
      let (edits, e3, h3) =
        >>=-eq-ok (apply_configs p groups []) (λ edits. ok (prepared_gpus p uid edits groups)) h2 in
      ap (count (of_prepared test)) (sym (ok-injective h3))
      ∙ prepared_gpus-grouped uid edits groups
      ∙ group_results-grouped allocatable configs allocation.results [] groups e2
      ∙ omega arith
