-- ===== src/MigFaker.antt =====
-- internal/migfaker: the MIG devices that a node's configuration selects, as the node reports them
-- (migfaker.go, types.go).
pub mod Instances
use Prim.Native.String
use fake_gpu_operator.Base.{
  ℕ, String, Bool, true, false, Option, none, some, List, [], ◌∷◌, if◌then◌else◌,
}
use fake_gpu_operator.Base.Int.{ℤ, eqb_ℤ}
use fake_gpu_operator.Base.Text.{atoi, contains}
use fake_gpu_operator.Base.Dict.{Dict, lookup}
use fake_gpu_operator.Base.Result.{
  Result, ok, err, ◌>>=◌, or_err, bad_number, unsupported_product, unknown_instance,
}
use fake_gpu_operator.Base.Effect.{Eff, lift, reads}
use fake_gpu_operator.Base.Effect
use fake_gpu_operator.KubeClient.{KubeApi, set_node_labels, set_node_annotations, get_node_labels}

pub record MigDevice : Type 0 where
  pub name : String
  pub position : ℤ
  pub size : ℤ

pub record SelectedDevices : Type 0 where
  pub devices : List String
  pub mig_enabled : Bool
  pub mig_devices : List MigDevice

pub record MigConfigs : Type 0 where
  pub selected_devices : List SelectedDevices

pub record MigDeviceMappingInfo : Type 0 where
  pub position : ℤ
  pub device_uuid : String
  pub gpu_instance_id : ℕ

-- By the index of the GPU.
abbrev pub MigMapping : Type 0
MigMapping = List (ℤ × List MigDeviceMappingInfo)

unfoldable pub set_mapping : ℤ → List MigDeviceMappingInfo → MigMapping → MigMapping
set_mapping i infos [] = (i, infos) ∷ []
set_mapping i infos ((j, old) ∷ rest) =
    let others = set_mapping i infos rest in
    if eqb_ℤ j i then (i, infos) ∷ rest else (j, old) ∷ others

-- The instance ids of a GPU with 40 GB, by the name of the profile.
abbrev pub instances_40gb : Dict ℕ
instances_40gb =
    ("1g.5gb", 19)
    ∷ ("1g.5gb+me", 20)
    ∷ ("1g.10gb", 15)
    ∷ ("2g.10gb", 14)
    ∷ ("3g.20gb", 9)
    ∷ ("4g.20gb", 5)
    ∷ ("7g.40gb", 0)
    ∷ []

abbrev pub instances_80gb : Dict ℕ
instances_80gb =
    ("1g.10gb", 19)
    ∷ ("1g.10gb+me", 20)
    ∷ ("1g.20gb", 15)
    ∷ ("2g.20gb", 14)
    ∷ ("3g.40gb", 9)
    ∷ ("4g.40gb", 5)
    ∷ ("7g.80gb", 0)
    ∷ []

unfoldable pub mig_instance_name_to_gpu_instance_id : String → String → Result ℕ
mig_instance_name_to_gpu_instance_id gpu_product name =
    if contains gpu_product "40GB"
    then or_err (lookup name instances_40gb) unknown_instance
    else if contains gpu_product "80GB"
    then or_err (lookup name instances_80gb) unknown_instance
    else err unsupported_product

abbrev pub label_gpu_product : String
label_gpu_product = "nvidia.com/gpu.product"

abbrev pub mapping_info : MigDevice → ℕ → String → MigDeviceMappingInfo
mapping_info d id uuid = record {
  position = d.position;
  device_uuid = String.◌++◌ "MIG-" uuid;
  gpu_instance_id = id;
}

-- A missing key reads as the empty string, also from a nil map.
abbrev pub value_at : String → Option (Dict String) → String
value_at key none = ""
value_at key (some m) = elim (lookup key m) [ none ↦ "" | some v ↦ v ]

-- uuid.New, and json.Marshal with the base64 encoding of its result.
pub record MigPlatform : Type 1 where
  pub kube : KubeApi
  pub generate_uuid : kube.State → kube.State × String
  pub encode_mapping : MigMapping → String

module _ (p : MigPlatform) where
  unfoldable pub get_gpu_product : p.kube.State → Result String
  unfolding get_node_labels
  get_gpu_product s = get_node_labels p.kube s >>= λ labels. ok (value_at label_gpu_product labels)

  abbrev pub new_uuid : Eff p.kube.State String
  new_uuid s = let (s', uuid) = p.generate_uuid s in (s', ok uuid)

  -- The loop over the MIG devices of one selection.
  unfoldable pub map_devices :
      String → List MigDevice → Eff p.kube.State (List MigDeviceMappingInfo)
  unfolding mig_instance_name_to_gpu_instance_id
  map_devices gpu_product [] = lift (ok [])
  map_devices gpu_product (d ∷ ds) =
      Effect.◌>>=◌ (lift (mig_instance_name_to_gpu_instance_id gpu_product d.name)) λ id.
        Effect.◌>>=◌ new_uuid λ uuid.
          Effect.◌>>=◌ (map_devices gpu_product ds)
            λ infos. lift (ok (mapping_info d id uuid ∷ infos))

  unfoldable pub get_gpu_mig_device_mapping_info :
      SelectedDevices → Eff p.kube.State (List MigDeviceMappingInfo)
  unfolding get_gpu_product map_devices
  get_gpu_mig_device_mapping_info selected =
      Effect.◌>>=◌ (reads get_gpu_product)
        λ gpu_product. map_devices gpu_product selected.mig_devices

  -- The loop over the selections; one without devices is passed over.
  unfoldable pub mappings_of : List SelectedDevices → MigMapping → Eff p.kube.State MigMapping
  unfolding get_gpu_mig_device_mapping_info set_mapping
  mappings_of [] mappings = lift (ok mappings)
  mappings_of (selected ∷ rest) mappings = elim selected.devices [
    | [] ↦ mappings_of rest mappings
    | device ∷ devices ↦ Effect.◌>>=◌ (lift (or_err (atoi device) bad_number)) λ gpu_idx.
        Effect.◌>>=◌ (get_gpu_mig_device_mapping_info selected)
          λ infos. mappings_of rest (set_mapping gpu_idx infos mappings)
  ]

  unfoldable pub fake_mapping : MigConfigs → Eff p.kube.State (Unit {0})
  unfolding mappings_of set_node_labels set_node_annotations
  fake_mapping config = Effect.◌>>=◌ (mappings_of config.selected_devices []) λ mappings.
      Effect.◌>>=◌ (set_node_labels p.kube (("nvidia.com/mig.config.state", "success") ∷ []))
        λ _. set_node_annotations p.kube (("run.ai/mig-mapping", p.encode_mapping mappings) ∷ [])
