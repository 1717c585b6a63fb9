-- ===== src/PodHandler/Allocation.antt =====
-- What the dedicated handlers' loops over the GPUs do: who holds which GPU, and how many are free.
use fake_gpu_operator.Base.{
  ℕ, zero, suc, ◌+◌, String, ◌≡◌, refl, ◌∙◌, subst, Bool, true, false, ◌⊎◌, inl, inr, List, [], ◌∷◌,
  none, ◌==◌, arith, if◌then◌else◌, ap, ◌≢◌,
}
use fake_gpu_operator.Base.Result.{Result, ok, ok-injective}
use Prim.Native.Nat.{min}
use fake_gpu_operator.Topology.{GpuUsageStatus, ContainerDetails, GpuDetails}
use fake_gpu_operator.Platform.{Pod}
use fake_gpu_operator.PodHandler.Gpus.{is_free, allocate_to}
use fake_gpu_operator.PodHandler.Dedicated.{record_usage, allocate_free}

abbrev pub holder : Pod → String → ContainerDetails
holder pod container = record { namespace = pod.namespace; pod = pod.name; container = container }

abbrev pub allocated_by : GpuDetails → ContainerDetails
allocated_by gpu = gpu.status.allocated_by

-- One GPU before and after an allocation: untouched, or it was free and is the pod's now.
abbrev pub Granted : Pod → String → GpuDetails → GpuDetails → Type 0
Granted pod container g g' =
    (g' ≡ g) ⊎ ((is_free g ≡ true) × (allocated_by g' ≡ holder pod container) × (g'.id ≡ g.id))

abbrev pub Grants : Pod → String → List GpuDetails → List GpuDetails → Type 0
Grants pod container [] [] = Unit
Grants pod container (g ∷ gs) (g' ∷ gs') = Granted pod container g g' × Grants pod container gs gs'
Grants pod container _ _ = ⊥

abbrev pub free_count : List GpuDetails → ℕ
free_count [] = 0
free_count (g ∷ gs) = if is_free g then suc (free_count gs) else free_count gs

-- The usage map is not nil.
abbrev pub IsInitialized : GpuDetails → Type 0
IsInitialized gpu = gpu.status.pod_gpu_usage_status ≢ none

-- A step on one GPU that changes neither its id nor its holder.
abbrev pub KeepsHolder : (GpuDetails → Result GpuDetails) → Type 0
KeepsHolder step =
    (g g' : GpuDetails) → step g ≡ ok g' → (allocated_by g' ≡ allocated_by g) × (g'.id ≡ g.id)

pub record_usage-KeepsHolder :
    (r : Bool) (uid : String) (usage : GpuUsageStatus) → KeepsHolder (record_usage r uid usage)
unfolding record_usage
record_usage-KeepsHolder r uid usage g g' h = ground arith

module _ (pod : Pod) (container : String) (use_gpu : GpuDetails → Result GpuDetails) where
  -- The successful result on a free GPU, and on a taken one.
  abbrev Split : ℕ → GpuDetails → List GpuDetails → List GpuDetails → Type 0
  Split n g gs gs' =
      (is_free g ≡ true)
      × (x : GpuDetails) × (xs : List GpuDetails) × (use_gpu (allocate_to pod container g) ≡ ok x)
      × (allocate_free pod container use_gpu n gs ≡ ok xs)
      × (gs' ≡ x ∷ xs)

  abbrev Skip : ℕ → GpuDetails → List GpuDetails → List GpuDetails → Type 0
  Skip n g gs gs' =
      (is_free g ≡ false)
      × (xs : List GpuDetails) × (allocate_free pod container use_gpu (suc n) gs ≡ ok xs)
      × (gs' ≡ g ∷ xs)

  allocate_free-cases :
      (n : ℕ) (g : GpuDetails) (gs gs' : List GpuDetails)
      → allocate_free pod container use_gpu (suc n) (g ∷ gs) ≡ ok gs'
      → Split n g gs gs' ⊎ Skip n g gs gs'
  unfolding allocate_free
  allocate_free-cases n g gs gs' h = ground arith

pub Grants-refl :
    (pod : Pod) (container : String) (gs : List GpuDetails) → Grants pod container gs gs
Grants-refl pod container [] = tt
Grants-refl pod container (g ∷ gs) = (inl refl, Grants-refl pod container gs)

module _ (pod : Pod) (container : String) (use_gpu : GpuDetails → Result GpuDetails)
    (keeps : KeepsHolder use_gpu) where
  pub allocate_free-Grants :
      (n : ℕ) (gs gs' : List GpuDetails)
      → allocate_free pod container use_gpu n gs ≡ ok gs'
      → Grants pod container gs gs'
  unfolding allocate_free
  allocate_free-Grants n [] [] h = tt
  allocate_free-Grants zero [] (x ∷ xs) h = cc
  allocate_free-Grants (suc n) [] (x ∷ xs) h = cc
  allocate_free-Grants zero (g ∷ gs) gs' h =
      subst (Grants pod container (g ∷ gs)) (ok-injective h) (Grants-refl pod container (g ∷ gs))
  allocate_free-Grants (suc n) (g ∷ gs) gs' h =
      elim (allocate_free-cases pod container use_gpu n g gs gs' h) [
        | inl (free, x, xs, used, rest, e) ↦ rw e (
          inr (
            free,
            (keeps (allocate_to pod container g) x used).0,
            (keeps (allocate_to pod container g) x used).1,
          ),
          allocate_free-Grants n gs xs rest,
        )
        | inr (taken, xs, rest, e) ↦ rw e (inl refl, allocate_free-Grants (suc n) gs xs rest)
      ]

  pub allocate_free-count :
      (pod.name == "") ≡ false
      → (n : ℕ) (gs gs' : List GpuDetails) → allocate_free pod container use_gpu n gs ≡ ok gs'
      → free_count gs' + min n (free_count gs) ≡ free_count gs
  unfolding allocate_free
  allocate_free-count named zero [] gs' h = rw (← ok-injective h) (omega arith)
  allocate_free-count named (suc n) [] gs' h = rw (← ok-injective h) (omega arith)
  allocate_free-count named zero (g ∷ gs) gs' h = rw (← ok-injective h) (omega arith)
  allocate_free-count named (suc n) (g ∷ gs) gs' h =
      elim (allocate_free-cases pod container use_gpu n g gs gs' h) [
        | inl (free, x, xs, used, rest, e) ↦
            let held : is_free x ≡ false =
              ap (λ a. a.pod == "") (keeps (allocate_to pod container g) x used).0 ∙ named in
            rw (e, free, held) (omega (arith, allocate_free-count named n gs xs rest))
        | inr (taken, xs, rest, e) ↦
            rw (e, taken) (omega (arith, allocate_free-count named (suc n) gs xs rest))
      ]
