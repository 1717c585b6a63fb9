-- ===== src/PodHandler/Safety.antt =====
-- The handlers never panic: no write to a nil usage map, no index out of range.
use fake_gpu_operator.Base.{
  ℕ, zero, suc, String, ◌≡◌, refl, sym, subst, Bool, true, false, inl, inr, List, [], ◌∷◌, some,
  All, arith, if◌then◌else◌, Bool-cases, Option-cases,
}
use fake_gpu_operator.Base.Result.{Result, ok, err, panic, ok-injective, Returns, Returns-bind}
use fake_gpu_operator.Base.Result
use fake_gpu_operator.Base.Dict.{insert, erase}
use fake_gpu_operator.Topology.{GpuUsageStatus, GpuDetails}
use fake_gpu_operator.Platform.{Pod}
use fake_gpu_operator.PodHandler.Gpus.{is_free, allocate_to, update_where, update_at, find_index}
use fake_gpu_operator.PodHandler.Dedicated.{record_usage, allocate_free}
use fake_gpu_operator.PodHandler.Shared.{delete_usage}
use fake_gpu_operator.PodHandler.Allocation.{IsInitialized}

-- The step returns on a GPU of which `P` holds, and `P` holds of what it leaves.
abbrev pub KeepsAll : (GpuDetails → Type 0) → (GpuDetails → Result GpuDetails) → Type 0
KeepsAll P step = (g : GpuDetails) → P g → (g' : GpuDetails) × (step g ≡ ok g') × P g'

abbrev pub KeepsInitialized : (GpuDetails → Result GpuDetails) → Type 0
KeepsInitialized step = KeepsAll IsInitialized step

-- A loop returned GPUs of which `P` holds.
abbrev pub AllOf : (GpuDetails → Type 0) → Result (List GpuDetails) → Type 0
AllOf P (ok gs) = All P gs
AllOf P (err e) = ⊥
AllOf P panic = ⊥

abbrev pub Initialized : Result (List GpuDetails) → Type 0
Initialized r = AllOf IsInitialized r

pub record_usage-KeepsInitialized :
    (r : Bool) (uid : String) (usage : GpuUsageStatus) → KeepsInitialized (record_usage r uid usage)
unfolding record_usage
record_usage-KeepsInitialized true uid usage g h = (g, refl, h)
record_usage-KeepsInitialized false uid usage g h =
    elim (Option-cases g.status.pod_gpu_usage_status) [
      | inl e ↦ absurd (h e)
      | inr (m, e) ↦ (
        record g { status = record g.status { pod_gpu_usage_status = some (insert uid usage m) } },
        ground arith,
        λ q. cc,
      )
    ]

-- Every GPU passes: deleting an entry returns on a nil map too.
pub delete_usage-KeepsAll : (uid : String) → KeepsAll (λ g. Unit) (delete_usage uid)
unfolding delete_usage
delete_usage-KeepsAll uid g h = elim (Option-cases g.status.pod_gpu_usage_status) [
  | inl e ↦ (g, ground arith, tt)
  | inr (m, e) ↦ (
    record g { status = record g.status { pod_gpu_usage_status = some (erase uid m) } },
    ground arith,
    tt,
  )
]

cons-AllOf :
    (P : GpuDetails → Type 0) (r : Result GpuDetails) (rs : Result (List GpuDetails))
    → (g : GpuDetails) × (r ≡ ok g) × P g
    → AllOf P rs
    → AllOf P (Result.◌>>=◌ r λ g. Result.◌>>=◌ rs λ gs. ok (g ∷ gs))
cons-AllOf P (ok g) (ok gs) (g', e, i) h = (subst P (sym (ok-injective e)) i, h)
cons-AllOf P (ok g) (err x) (g', e, i) h = h
cons-AllOf P (ok g) panic (g', e, i) h = h
cons-AllOf P (err x) rs (g', e, i) h = cc
cons-AllOf P panic rs (g', e, i) h = cc

module _ (step : GpuDetails → Result GpuDetails) (keeps : KeepsInitialized step) where
  pub allocate_free-Initialized :
      (pod : Pod) (container : String) (n : ℕ) (gs : List GpuDetails)
      → All IsInitialized gs
      → Initialized (allocate_free pod container step n gs)
  unfolding allocate_free
  allocate_free-Initialized pod container zero [] h = tt
  allocate_free-Initialized pod container (suc n) [] h = tt
  allocate_free-Initialized pod container zero (g ∷ gs) h = h
  allocate_free-Initialized pod container (suc n) (g ∷ gs) h = elim (Bool-cases (is_free g)) [
    | inl free ↦
        rw (free, allocate_free)
          (cons-AllOf IsInitialized _ _ (keeps (allocate_to pod container g) h.0)
            (allocate_free-Initialized pod container n gs h.1))
    | inr taken ↦
        rw (taken, allocate_free)
          (cons-AllOf IsInitialized (ok g) _ (g, refl, h.0)
            (allocate_free-Initialized pod container (suc n) gs h.1))
  ]

  if-step :
      (test : GpuDetails → Bool) (g : GpuDetails)
      → IsInitialized g
      → (g' : GpuDetails) × ((if test g then step g else ok g) ≡ ok g') × IsInitialized g'
  if-step test g h = elim (Bool-cases (test g)) [
    | inl e ↦ rw e (keeps g h)
    | inr e ↦ rw e (g, refl, h)
  ]

  pub update_where-Initialized :
      (test : GpuDetails → Bool) (gs : List GpuDetails)
      → All IsInitialized gs
      → Initialized (update_where test step gs)
  unfolding update_where
  update_where-Initialized test [] h = tt
  update_where-Initialized test (g ∷ gs) h =
      cons-AllOf IsInitialized _ _ (if-step test g h.0) (update_where-Initialized test gs h.1)

find_index-suc :
    (test : GpuDetails → Bool) (g : GpuDetails) (gs : List GpuDetails) (i : ℕ)
    → find_index test (g ∷ gs) ≡ some (suc i)
    → find_index test gs ≡ some i
unfolding find_index
find_index-suc test g gs i e = ground arith

module _ (P : GpuDetails → Type 0) (step : GpuDetails → Result GpuDetails)
    (keeps : KeepsAll P step) where
  pub update_at-AllOf :
      (test : GpuDetails → Bool) (gs : List GpuDetails) (i : ℕ)
      → find_index test gs ≡ some i
      → All P gs
      → AllOf P (update_at i step gs)
  unfolding update_at find_index
  update_at-AllOf test [] i e h = cc
  update_at-AllOf test (g ∷ gs) zero e h = cons-AllOf P _ (ok gs) (keeps g h.0) h.1
  update_at-AllOf test (g ∷ gs) (suc i) e h =
      cons-AllOf P (ok g) _ (g, refl, h.0)
        (update_at-AllOf test gs i (find_index-suc test g gs i e) h.1)
