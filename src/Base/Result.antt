-- ===== src/Base/Result.antt =====
-- What a Go function returns beside its value: an error, or no return at all because it panicked.
use mathlib.Core.Path.{◌≡◌, refl, ap}
use mathlib.Core.Option.{Option, none, some}

-- The errors of the modelled code, one name for each place that makes one. The first three are the
-- API server's answers.
pub data Error : Type 0 where
  not_found already_exists api_failure : Error
  bad_yaml missing_key empty_topology : Error
  no_gpus_requested no_reservation_pod no_gpu_of_pod no_annotation bad_number : Error
  no_pool_label no_pool no_node_label : Error
  bad_zones zone_count_mismatch zone_sum_mismatch bad_quantity : Error
  unsupported_product unknown_instance bad_annotation no_pod_group no_priority_class : Error
  empty_profile : Error
  no_device_class no_domain_id no_domain no_devices not_allocated not_allocatable bad_config : Error

pub data Result {ℓ} (A : Type ℓ) : Type ℓ where
  ok : A → Result A
  err : Error → Result A
  panic : Result A

module _ {ℓ κ} {A : Type ℓ} {B : Type κ} where
  infixl 5 ◌>>=◌ ◌>>◌
  abbrev pub ◌>>=◌ : Result A → (A → Result B) → Result B
  panic >>= next = panic
  err e >>= next = err e
  ok a >>= next = next a

  abbrev pub ◌>>◌ : Result A → Result B → Result B
  first >> second = first >>= λ _. second

abbrev pub or_err {ℓ} : {A : Type ℓ} → Option A → Error → Result A
or_err none e = err e
or_err (some a) e = ok a

-- The call returned, with a value or an error.
abbrev pub Returns {ℓ} : {A : Type ℓ} → Result A → Type 0
Returns (ok a) = Unit
Returns (err e) = Unit
Returns panic = ⊥

module _ {ℓ κ} {A : Type ℓ} {B : Type κ} where
  -- Inversion of a bind that returned a value.
  pub >>=-eq-ok :
      (first : Result A) (next : A → Result B) {b : B}
      → (first >>= next) ≡ ok b
      → (a : A) × (first ≡ ok a) × (next a ≡ ok b)
  >>=-eq-ok panic next run = cc
  >>=-eq-ok (err e) next run = cc
  >>=-eq-ok (ok a) next run = (a, refl, run)

  pub Returns-bind :
      (first : Result A) (next : A → Result B)
      → Returns first
      → ((a : A) → first ≡ ok a → Returns (next a))
      → Returns (first >>= next)
  Returns-bind (ok a) next returned k = k a refl
  Returns-bind (err e) next returned k = tt
  Returns-bind panic next returned k = returned

pub Result-cases {ℓ} :
    {A : Type ℓ} (r : Result A)
    → Returns r
    → (B : Type 0) → ((a : A) → r ≡ ok a → B)
    → ((e : Error) → r ≡ err e → B)
    → B
Result-cases (ok a) h B f g = f a refl
Result-cases (err e) h B f g = g e refl
Result-cases panic h B f g = absurd h

pub ok-injective {ℓ} : {A : Type ℓ} {a b : A} → ok a ≡ ok b → a ≡ b
ok-injective {a = a} p = ap (λ r. elim r [ ok x ↦ x | err e ↦ a | panic ↦ a ]) p

pub err-ne-ok {ℓ} : {A : Type ℓ} {e : Error} {a : A} → err e ≡ ok a → ⊥
err-ne-ok p = cc

pub panic-ne-ok {ℓ} : {A : Type ℓ} {a : A} → panic ≡ ok a → ⊥
panic-ne-ok p = cc
