-- ===== src/MigFaker/Instances.antt =====
-- The instance ids that MIG devices are given.

use fake_gpu_operator.Base.{
  ℕ, String, ◌≡◌, refl, ap, Bool, true, false, not, ◌&&◌, ◌||◌, inl, inr, Option, none, some, List,
  [], ◌∷◌, map, nat_beq, arith, eq_iff, Bool-cases,
}
use fake_gpu_operator.Base.Text.{contains}
use fake_gpu_operator.Base.Dict.{Dict, lookup}
use fake_gpu_operator.Base.Result.{Error, ok, or_err, ok-injective}
use fake_gpu_operator.Base.Effect.{Eff, ◌>>=◌, lift, >>=-eq-ok}
use fake_gpu_operator.MigFaker.{
  MigDevice, MigDeviceMappingInfo, MigPlatform, instances_40gb, instances_80gb,
  mig_instance_name_to_gpu_instance_id, map_devices, mapping_info, new_uuid,
}

abbrev has_value : ℕ → Dict ℕ → Bool
has_value v [] = false
has_value v ((name, w) ∷ rest) = nat_beq w v || has_value v rest

abbrev distinct_values : Dict ℕ → Bool
distinct_values [] = true
distinct_values ((name, v) ∷ rest) = not (has_value v rest) && distinct_values rest

lookup-has_value : (a : String) (v : ℕ) (m : Dict ℕ) → lookup a m ≡ some v → has_value v m ≡ true
unfolding lookup
lookup-has_value a v [] h = cc
lookup-has_value a v ((name, w) ∷ rest) h = ground (arith, lookup-has_value a v rest)

lookup-injective :
    (m : Dict ℕ) (a b : String) (v : ℕ)
    → distinct_values m ≡ true
    → lookup a m ≡ some v
    → lookup b m ≡ some v
    → a ≡ b
unfolding lookup
lookup-injective [] a b v distinct h k = cc
lookup-injective ((name, w) ∷ rest) a b v distinct h k = ground (
  arith,
  eq_iff name a,
  eq_iff name b,
  lookup-has_value a v rest,
  lookup-has_value b v rest,
  lookup-injective rest a b v,
)

or_err-eq-ok : {A : Type 0} (o : Option A) (e : Error) (a : A) → or_err o e ≡ ok a → o ≡ some a
or_err-eq-ok none e a h = cc
or_err-eq-ok (some x) e a h = ap some (ok-injective h)

-- On one GPU product two names with the same instance id are the same name.
pub mig_instance_name_to_gpu_instance_id-injective :
    (gpu_product a b : String) (n : ℕ)
    → mig_instance_name_to_gpu_instance_id gpu_product a ≡ ok n
    → mig_instance_name_to_gpu_instance_id gpu_product b ≡ ok n
    → a ≡ b
unfolding mig_instance_name_to_gpu_instance_id
mig_instance_name_to_gpu_instance_id-injective gpu_product a b n h k =
    elim (Bool-cases (contains gpu_product "40GB")) [
      | inl e ↦
          lookup-injective instances_40gb a b n refl
            (or_err-eq-ok _ _ n (rw (e, mig_instance_name_to_gpu_instance_id) at h))
            (or_err-eq-ok _ _ n (rw (e, mig_instance_name_to_gpu_instance_id) at k))
      | inr e ↦ elim (Bool-cases (contains gpu_product "80GB")) [
        | inl e' ↦
            lookup-injective instances_80gb a b n refl
              (or_err-eq-ok _ _ n (rw (e, e', mig_instance_name_to_gpu_instance_id) at h))
              (or_err-eq-ok _ _ n (rw (e, e', mig_instance_name_to_gpu_instance_id) at k))
        | inr e' ↦ cc (rw (e, e', mig_instance_name_to_gpu_instance_id) at h)
      ]
    ]

module _ (p : MigPlatform) where
  -- The devices that are mapped are the selected ones, in their order: each has the position that
  -- was selected and the instance id of its name.
  pub map_devices-selected :
      (gpu_product : String) (ds : List MigDevice) (s s' : p.kube.State)
      (infos : List MigDeviceMappingInfo)
      → map_devices p gpu_product ds s ≡ (s', ok infos)
      → (map (λ i. i.position) infos ≡ map (λ d. d.position) ds)
        × (map (λ i. ok i.gpu_instance_id) infos
            ≡ map (λ d. mig_instance_name_to_gpu_instance_id gpu_product d.name) ds)
  unfolding map_devices
  map_devices-selected gpu_product [] s s' infos h =
      let e : [] ≡ infos = ok-injective (ap (λ q. q.1) h) in rw (← e) (refl, refl)
  map_devices-selected gpu_product (d ∷ ds) s s' infos h =
      let tail : ℕ → String → Eff p.kube.State (List MigDeviceMappingInfo) = λ id uuid.
        map_devices p gpu_product ds >>= λ infos. lift (ok (mapping_info d id uuid ∷ infos)) in
      let (s1, id, e1, h1) =
        >>=-eq-ok (lift (mig_instance_name_to_gpu_instance_id gpu_product d.name))
          (λ id. new_uuid p >>= tail id) s h in
      let (s2, uuid, e2, h2) = >>=-eq-ok (new_uuid p) (tail id) s1 h1 in
      let (s3, rest, e3, h3) =
        >>=-eq-ok (map_devices p gpu_product ds)
          (λ infos. lift (ok (mapping_info d id uuid ∷ infos))) s2 h2 in
      let (positions, ids) = map_devices-selected gpu_product ds s2 s3 rest e3 in
      let e : mapping_info d id uuid ∷ rest ≡ infos = ok-injective (ap (λ q. q.1) h3) in
      rw (← e, positions, ids, ap (λ q. q.1) e1) (refl, refl)
