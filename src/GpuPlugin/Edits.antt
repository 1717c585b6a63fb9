-- ===== src/GpuPlugin/Edits.antt =====
-- The environments of the devices, as a map that is filled configuration by configuration.
use fake_gpu_operator.Base.{
  ◌≡◌, refl, ap, ◌∙◌, subst, String, Bool, true, false, inl, inr, Option, none, some, List, [], ◌∷◌,
  All, ◌==◌, if◌then◌else◌, ◌||◌, Bool-cases, eq_refl, eq_iff, arith,
}
use fake_gpu_operator.Base.Dict.{Dict, lookup, insert, lookup-insert}
use fake_gpu_operator.Base.Result.{ok, >>=-eq-ok, ok-injective}
use fake_gpu_operator.Platform.{AllocationResult}
use fake_gpu_operator.GpuPlugin.{GpuPlatform, Group}
use fake_gpu_operator.GpuPlugin.Prepare.{
  apply_config, apply_configs, merge_edits, usable_config, envs_of,
}

abbrev pub Edits : Type 0
Edits = Dict (List String)

abbrev is_some : Option (List String) → Bool
is_some none = false
is_some (some envs) = true

-- The device has an environment.
abbrev pub has : String → Edits → Bool
has device edits = is_some (lookup device edits)

has-insert :
    (u device : String) (envs : List String) (edits : Edits)
    → has u (insert device envs edits) ≡ ((device == u) || has u edits)
has-insert u device envs edits =
    ap is_some (lookup-insert device u envs edits) ∙ go (device == u) (lookup u edits)
  where
    go :
        (b : Bool) (o : Option (List String))
        → is_some (if b then some envs else o) ≡ (b || is_some o)
    go true o = refl
    go false o = refl

or_true : (b : Bool) → (b || true) ≡ true
or_true b = ground arith

keeps-insert :
    (u device : String) (envs : List String) (edits : Edits)
    → has u edits ≡ true
    → has u (insert device envs edits) ≡ true
keeps-insert u device envs edits h =
    has-insert u device envs edits ∙ ap (λ b. (device == u) || b) h ∙ or_true (device == u)

has_inserted :
    (u : String) (envs : List String) (edits : Edits) → has u (insert u envs edits) ≡ true
has_inserted u envs edits = has-insert u u envs edits ∙ rw (eq_refl u) refl

keeps-merge_edits :
    (p : GpuPlatform) (u : String) (new edits : Edits)
    → has u edits ≡ true
    → has u (merge_edits p new edits) ≡ true
keeps-merge_edits p u [] edits h = h
keeps-merge_edits p u ((device, envs) ∷ new) edits h =
    keeps-merge_edits p u new (insert device envs edits) (keeps-insert u device envs edits h)

has-merge_edits :
    (p : GpuPlatform) (u : String) (new edits : Edits)
    → has u new ≡ true
    → has u (merge_edits p new edits) ≡ true
unfolding lookup
has-merge_edits p u [] edits h = cc
has-merge_edits p u ((device, envs) ∷ new) edits h = elim (Bool-cases (device == u)) [
  | inl e ↦
      keeps-merge_edits p u new (insert device envs edits)
        (has-insert u device envs edits ∙ rw e refl)
  | inr e ↦ has-merge_edits p u new (insert device envs edits) (rw e at h)
]

-- A property of the entries of a map.
module _ (P : String × List String → Type 0) where
  insert-All :
      (device : String) (envs : List String) (edits : Edits)
      → P (device, envs)
      → All P edits
      → All P (insert device envs edits)
  unfolding insert
  insert-All device envs [] h all = (h, tt)
  insert-All device envs ((other, v) ∷ edits) h (o, all) = elim (Bool-cases (other == device)) [
    | inl e ↦ rw e (h, all)
    | inr e ↦ rw e (o, insert-All device envs edits h all)
  ]

  merge_edits-All :
      (p : GpuPlatform) (new edits : Edits)
      → All P new
      → All P edits
      → All P (merge_edits p new edits)
  merge_edits-All p [] edits n e = e
  merge_edits-All p ((device, envs) ∷ new) edits (h, n) e =
      merge_edits-All p new (insert device envs edits) n (insert-All device envs edits h e)

  pub lookup-All :
      (u : String) (edits : Edits)
      → has u edits ≡ true
      → All P edits
      → (envs : List String) × (lookup u edits ≡ some envs) × P (u, envs)
  unfolding lookup
  lookup-All u [] h all = cc
  lookup-All u ((device, envs) ∷ edits) h (x, all) = elim (Bool-cases (device == u)) [
    | inl e ↦ (envs, rw e refl, subst (λ d. P (d, envs)) ((eq_iff device u).0 e) x)
    | inr e ↦ let (envs', found, y) = lookup-All u edits (rw e at h) all in (envs', rw e found, y)
  ]

  module _ (p : GpuPlatform) where
    -- What a configuration gives to a device has the property.
    abbrev pub Gives : p.GpuConfig → AllocationResult → Type 0
    Gives config r = (envs : List String) → envs_of p config r.device ≡ ok envs → P (r.device, envs)

    apply_config-All :
        (config : p.GpuConfig) (rs : List AllocationResult) (edits new : Edits)
        → All (Gives config) rs
        → apply_config p config rs edits ≡ ok new
        → All P edits
        → All P new
    unfolding apply_config
    apply_config-All config [] edits new g e all = subst (All P) (ok-injective e) all
    apply_config-All config (r ∷ rs) edits new (g, gs) e all =
        let (envs, e1, h1) =
          >>=-eq-ok (envs_of p config r.device)
            (λ envs. apply_config p config rs (insert r.device envs edits)) e in
        apply_config-All config rs (insert r.device envs edits) new gs h1
          (insert-All r.device envs edits (g envs e1) all)

module _ (p : GpuPlatform) where
  apply_config-keeps :
      (u : String) (config : p.GpuConfig) (rs : List AllocationResult) (edits new : Edits)
      → apply_config p config rs edits ≡ ok new
      → has u edits ≡ true
      → has u new ≡ true
  unfolding apply_config
  apply_config-keeps u config [] edits new e h = subst (λ m. has u m ≡ true) (ok-injective e) h
  apply_config-keeps u config (r ∷ rs) edits new e h =
      let (envs, e1, h1) =
        >>=-eq-ok (envs_of p config r.device)
          (λ envs. apply_config p config rs (insert r.device envs edits)) e in
      apply_config-keeps u config rs (insert r.device envs edits) new h1
        (keeps-insert u r.device envs edits h)

  apply_config-has :
      (config : p.GpuConfig) (rs : List AllocationResult) (edits new : Edits)
      → apply_config p config rs edits ≡ ok new
      → All (λ (r : AllocationResult). has r.device new ≡ true) rs
  unfolding apply_config
  apply_config-has config [] edits new e = tt
  apply_config-has config (r ∷ rs) edits new e =
      let (envs, e1, h1) =
        >>=-eq-ok (envs_of p config r.device)
          (λ envs. apply_config p config rs (insert r.device envs edits)) e in
      (
        apply_config-keeps r.device config rs (insert r.device envs edits) new h1
            (has_inserted r.device envs edits),
        apply_config-has config rs (insert r.device envs edits) new h1,
      )

  apply_configs-keeps :
      (u : String) (gs : List (Group p)) (edits final : Edits)
      → apply_configs p gs edits ≡ ok final
      → has u edits ≡ true
      → has u final ≡ true
  unfolding apply_configs
  apply_configs-keeps u [] edits final e h = subst (λ m. has u m ≡ true) (ok-injective e) h
  apply_configs-keeps u (g ∷ gs) edits final e h =
      let (config, e1, h1) = >>=-eq-ok (usable_config p g.config) _ e in
      let (new, e2, h2) =
        >>=-eq-ok (apply_config p config g.results [])
          (λ new. apply_configs p gs (merge_edits p new edits)) h1 in
      apply_configs-keeps u gs (merge_edits p new edits) final h2
        (keeps-merge_edits p u new edits h)

  -- Every result of a group has an environment in `edits`.
  abbrev pub HasAll : Edits → Group p → Type 0
  HasAll edits g = All (λ (r : AllocationResult). has r.device edits ≡ true) g.results

  kept-HasAll :
      (gs : List (Group p)) (rs : List AllocationResult) (new edits final : Edits)
      → apply_configs p gs (merge_edits p new edits) ≡ ok final
      → All (λ (r : AllocationResult). has r.device new ≡ true) rs
      → All (λ (r : AllocationResult). has r.device final ≡ true) rs
  kept-HasAll gs [] new edits final e h = tt
  kept-HasAll gs (r ∷ rs) new edits final e (h, hs) = (
    apply_configs-keeps r.device gs (merge_edits p new edits) final e
        (has-merge_edits p r.device new edits h),
    kept-HasAll gs rs new edits final e hs,
  )

  pub apply_configs-HasAll :
      (gs : List (Group p)) (edits final : Edits)
      → apply_configs p gs edits ≡ ok final
      → All (HasAll final) gs
  unfolding apply_configs
  apply_configs-HasAll [] edits final e = tt
  apply_configs-HasAll (g ∷ gs) edits final e =
      let (config, e1, h1) = >>=-eq-ok (usable_config p g.config) _ e in
      let (new, e2, h2) =
        >>=-eq-ok (apply_config p config g.results [])
          (λ new. apply_configs p gs (merge_edits p new edits)) h1 in
      (
        kept-HasAll gs g.results new edits final h2 (apply_config-has config g.results [] new e2),
        apply_configs-HasAll gs (merge_edits p new edits) final h2,
      )

  -- What the configuration of a group gives to its results has the property.
  abbrev pub GroupGives : (String × List String → Type 0) → Group p → Type 0
  GroupGives P g =
      (config : p.GpuConfig)
      → usable_config p g.config ≡ ok config
      → All (Gives P p config) g.results

  pub apply_configs-All :
      (P : String × List String → Type 0) (gs : List (Group p)) (edits final : Edits)
      → All (GroupGives P) gs
      → apply_configs p gs edits ≡ ok final
      → All P edits
      → All P final
  unfolding apply_configs
  apply_configs-All P [] edits final gives e all = subst (All P) (ok-injective e) all
  apply_configs-All P (g ∷ gs) edits final (give, gives) e all =
      let (config, e1, h1) = >>=-eq-ok (usable_config p g.config) _ e in
      let (new, e2, h2) =
        >>=-eq-ok (apply_config p config g.results [])
          (λ new. apply_configs p gs (merge_edits p new edits)) h1 in
      apply_configs-All P gs (merge_edits p new edits) final gives h2 (
        merge_edits-All P p new edits
          (apply_config-All P p config g.results [] new (give config e1) e2 tt) all)
