-- ===== src/DomainPlugin/Calls.antt =====
-- internal/compute-domain-dra-plugin/state.go and cdi.go: Prepare and Unprepare, with the files that
-- they read and write.
use Prim.Native.String
use fake_gpu_operator.Base.{
  ℕ, String, Bool, Option, none, some, List, [], ◌∷◌, map, any, ◌==◌, if◌then◌else◌,
}
use fake_gpu_operator.Base.Dict.{lookup}
use fake_gpu_operator.Base.Result.{
  Result, ok, err, panic, no_device_class, no_domain_id, no_domain, no_devices,
}
use fake_gpu_operator.Base.Effect.{Eff, ◌>>=◌, ◌>>◌, lift, reads}
use fake_gpu_operator.DomainPlugin.{
  Checkpoint, ContainerEdits, DomainClaim, DomainInfo, PreparedDevice, new_checkpoint,
  get_device_class_name, extract_compute_domain_params, get_or_create_domain, prepared, unprepared,
  devices_of_claim,
}
use fake_gpu_operator.DomainPlugin.Files.{Node, CdiDevice, container_edits}

abbrev pub driver_plugin_checkpoint_file : String
driver_plugin_checkpoint_file = "computedomain-checkpoint.json"

module _ (n : Node) where
  abbrev pub claim_device : String → String → String
  claim_device uid name = String.◌++◌ uid (String.◌++◌ "-" name)

  -- The environment variable that a device has for its claim.
  abbrev pub claim_env : String → String → String
  claim_env uid name =
      String.◌++◌ "COMPUTE_DOMAIN_DEVICE_" (String.◌++◌ name (String.◌++◌ "_RESOURCE_CLAIM=" uid))

  abbrev pub cdi_device : String → PreparedDevice → CdiDevice
  cdi_device uid device =
      let own : ContainerEdits = record {
        env = claim_env uid device.device_name ∷ [];
        device_nodes = [];
      } in
      record {
        name = claim_device uid device.device_name;
        container_edits = elim device.container_edits [
          | none ↦ own
          | some edits ↦ n.append_edits own edits
        ];
      }

  unfoldable pub create_claim_spec_file : String → List PreparedDevice → Eff n.State (Unit {0})
  create_claim_spec_file uid devices =
      let spec_devices = map (cdi_device uid) devices in
      lift (n.minimum_version spec_devices) >>= λ version s.
      n.write_spec s
        (record {
          version = version;
          kind = "k8s.compute-domain.nvidia.com/computedomain";
          devices = spec_devices;
        })
        (n.transient_spec_name uid)

  -- device.CDIDeviceIDs = ids
  abbrev pub with_ids : String → PreparedDevice → PreparedDevice
  with_ids uid device = record device {
    cdi_device_ids = n.qualified_name (claim_device uid device.device_name) ∷ [];
  }

  -- The devices with their CDI ids; no list of ids is empty, as each is made for one device.
  unfoldable pub ensure_claim_cdi_artifacts :
      String → List PreparedDevice → Eff n.State (List PreparedDevice)
  unfolding create_claim_spec_file
  ensure_claim_cdi_artifacts uid [] = lift (err no_devices)
  ensure_claim_cdi_artifacts uid (d ∷ ds) =
      let devices = map (with_ids uid) (d ∷ ds) in
      create_claim_spec_file uid devices >> lift (ok devices)

  -- The checkpoint as Prepare and Unprepare read it.
  abbrev pub read_checkpoint : n.State → Result Checkpoint
  read_checkpoint s = elim (n.get_checkpoint s) [
    | ok none ↦ ok new_checkpoint
    | ok (some cp) ↦ ok cp
    | err e ↦ err e
    | panic ↦ panic
  ]

  module _ (allocatable : List String) (claim : DomainClaim) where
    -- A claim that is not prepared yet: the CDI device of its domain, its devices and their CDI
    -- spec, and the checkpoint.
    unfoldable pub prepare_in :
        Checkpoint → String → Bool → ℕ → Option DomainInfo → Eff n.State (List PreparedDevice)
    unfolding devices_of_claim
    prepare_in cp id all now none = lift (err no_domain)
    prepare_in cp id all now (some info) = container_edits n info >>= λ edits.
        ensure_claim_cdi_artifacts claim.uid
          (devices_of_claim allocatable all claim.namespace (some edits))
        >>= λ devices.
            (λ s. n.create_checkpoint s (prepared claim.uid id now devices cp)) >> lift (ok devices)

    unfoldable pub prepare_new : Checkpoint → String → Bool → Eff n.State (List PreparedDevice)
    unfolding prepare_in
    prepare_new cp id all s =
        let domains = get_or_create_domain cp.domains id claim.uid (n.now s) in
        prepare_in cp id all (n.now s) (lookup id domains) s

    -- The checks of a claim that is not prepared yet.
    unfoldable pub prepare_checked : Checkpoint → Eff n.State (List PreparedDevice)
    unfolding get_device_class_name extract_compute_domain_params prepare_new
    prepare_checked cp =
        if get_device_class_name claim.requests == ""
        then lift (err no_device_class)
        else (let (id, all) = extract_compute_domain_params n.unmarshal_params claim.configs in
            if id == "" then lift (err no_domain_id) else prepare_new cp id all)

    unfoldable pub prepare_known :
        Checkpoint → Option (List PreparedDevice) → Eff n.State (List PreparedDevice)
    unfolding ensure_claim_cdi_artifacts prepare_checked
    prepare_known cp (some devices) = ensure_claim_cdi_artifacts claim.uid devices
    prepare_known cp none = prepare_checked cp

    unfoldable pub prepare : Eff n.State (List PreparedDevice)
    unfolding prepare_known
    prepare = reads read_checkpoint >>= λ cp. prepare_known cp (lookup claim.uid cp.prepared_claims)

  -- The removal of the CDI spec; its failure is logged.
  abbrev pub delete_claim_spec_file : String → Eff n.State (Unit {0})
  delete_claim_spec_file uid s = ((n.remove_spec s (n.transient_spec_name uid)).0, ok tt)

  unfoldable pub unprepare_known :
      String → Checkpoint → Option (List PreparedDevice) → Eff n.State (Unit {0})
  unprepare_known uid cp none = lift (ok tt)
  unprepare_known uid cp (some devices) =
      (λ s. n.create_checkpoint s (unprepared uid cp)) >> delete_claim_spec_file uid

  -- A nil V1 has no claims, so nothing is done.
  unfoldable pub unprepare : String → Eff n.State (Unit {0})
  unfolding unprepare_known
  unprepare uid =
      reads read_checkpoint >>= λ cp. unprepare_known uid cp (lookup uid cp.prepared_claims)

  -- The part of NewComputeDomainState that makes the first checkpoint.
  unfoldable pub open_checkpoint : Eff n.State (Unit {0})
  open_checkpoint = reads n.list_checkpoints >>= λ names.
      if any (λ name. name == driver_plugin_checkpoint_file) names
      then (reads n.get_checkpoint >> lift (ok tt))
      else (λ s. n.create_checkpoint s new_checkpoint)
