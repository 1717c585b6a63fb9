-- ===== src/GpuPlugin/Last.antt =====
-- The configuration that is chosen for a request is the last one that is for it.
use fake_gpu_operator.Base.{
  ℕ, zero, suc, ◌+◌, ◌≡◌, refl, ap, subst, String, Bool, true, false, Option, none, some, List, [],
  ◌∷◌, All, if◌then◌else◌, arith,
}
use mathlib.Core.Option.{some-injective}
use fake_gpu_operator.GpuPlugin.{GpuPlatform, OpaqueDeviceConfig}
use fake_gpu_operator.GpuPlugin.Prepare.{config_for, is_for, or_else}

module _ (p : GpuPlatform) where
  -- The last configuration for a request is at the place `n`, and no later one is for the request.
  pub data LastFor (request : String) : List (OpaqueDeviceConfig p) → ℕ → p.Object → Type 0 where
    here :
        (c : OpaqueDeviceConfig p) (cs : List (OpaqueDeviceConfig p))
        → is_for p c.requests request ≡ true
        → All (λ (other : OpaqueDeviceConfig p). is_for p other.requests request ≡ false) cs
        → LastFor request (c ∷ cs) 0 c.config
    later :
        (c : OpaqueDeviceConfig p) (cs : List (OpaqueDeviceConfig p)) (n : ℕ) (object : p.Object)
        → LastFor request cs n object
        → LastFor request (c ∷ cs) (suc n) object

  abbrev pub object_at : List (OpaqueDeviceConfig p) → ℕ → Option p.Object
  object_at [] n = none
  object_at (c ∷ cs) zero = some c.config
  object_at (c ∷ cs) (suc n) = object_at cs n

  pub object_at-LastFor :
      {request : String} {configs : List (OpaqueDeviceConfig p)} {n : ℕ} {object : p.Object}
      → LastFor request configs n object
      → object_at configs n ≡ some object
  object_at-LastFor (here c cs match rest) = refl
  object_at-LastFor (later c cs n object l) = object_at-LastFor l

  config_for-none :
      (request : String) (i : ℕ) (configs : List (OpaqueDeviceConfig p))
      → config_for p request i configs ≡ none
      → All (λ (other : OpaqueDeviceConfig p). is_for p other.requests request ≡ false) configs
  unfolding config_for
  config_for-none request i [] e = tt
  config_for-none request i (c ∷ cs) e =
      go (config_for p request (suc i) cs) (is_for p c.requests request)
        (config_for-none request (suc i) cs) refl e
    where
      go :
          (o : Option (ℕ × p.Object)) (b : Bool)
          → (o ≡ none
              → All (λ (other : OpaqueDeviceConfig p). is_for p other.requests request ≡ false) cs)
          → is_for p c.requests request ≡ b
          → or_else p o (if b then some (i, c.config) else none) ≡ none
          → All (λ (other : OpaqueDeviceConfig p). is_for p other.requests request ≡ false) (c ∷ cs)
      go none false found match h = (match, found refl)
      go none true found match h = cc
      go (some q) b found match h = cc

  pub config_for-LastFor :
      (request : String) (i j : ℕ) (configs : List (OpaqueDeviceConfig p)) (object : p.Object)
      → config_for p request i configs ≡ some (j, object)
      → (n : ℕ) × (j ≡ i + n) × LastFor request configs n object
  unfolding config_for
  config_for-LastFor request i j [] object e = cc
  config_for-LastFor request i j (c ∷ cs) object e =
      go (config_for p request (suc i) cs) (is_for p c.requests request)
        (config_for-none request (suc i) cs) (config_for-LastFor request (suc i) j cs object) refl e
    where
      go :
          (o : Option (ℕ × p.Object)) (b : Bool)
          → (o ≡ none
              → All (λ (other : OpaqueDeviceConfig p). is_for p other.requests request ≡ false) cs)
          → (o ≡ some (j, object) → (n : ℕ) × (j ≡ suc i + n) × LastFor request cs n object)
          → is_for p c.requests request ≡ b
          → or_else p o (if b then some (i, c.config) else none) ≡ some (j, object)
          → (n : ℕ) × (j ≡ i + n) × LastFor request (c ∷ cs) n object
      go none false rest found match h = cc
      go none true rest found match h =
          let same = some-injective (i, c.config) (j, object) h in
          let at : i ≡ j = ap (λ (q : ℕ × p.Object). q.0) same in
          (
            0,
            omega (arith, at),
            subst (LastFor request (c ∷ cs) 0) (ap (λ (q : ℕ × p.Object). q.1) same)
                (here c cs match (rest refl)),
          )
      go (some q) b rest found match h =
          let (n, at, l) = found h in (suc n, omega (arith, at), later c cs n object l)
