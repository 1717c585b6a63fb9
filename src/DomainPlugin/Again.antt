-- ===== src/DomainPlugin/Again.antt =====
-- Calls after a claim was prepared: preparing it again, and unpreparing it.
use fake_gpu_operator.Base.{
  ℕ, ◌≡◌, refl, sym, ap, ◌∙◌, subst, String, Bool, true, false, Option, none, some, List, [], ◌∷◌,
  map, ◌==◌, if◌then◌else◌, eq_refl,
}
use fake_gpu_operator.Base.Dict.{lookup, lookup-insert}
use fake_gpu_operator.Base.Result
use fake_gpu_operator.Base.Result.{
  Result, ok, err, panic, Error, ok-injective, err-ne-ok, panic-ne-ok,
}
use fake_gpu_operator.Base.Effect.{Eff, ◌>>=◌, ◌>>◌, lift, >>=-eq-ok}
use fake_gpu_operator.DomainPlugin.{
  Checkpoint, DomainClaim, DomainInfo, PreparedDevice, prepared, unprepared, devices_of_claim,
  get_device_class_name, extract_compute_domain_params,
}
use fake_gpu_operator.DomainPlugin.Files.{Node, container_edits}
use fake_gpu_operator.DomainPlugin.Calls.{
  prepare_in, prepare_known, unprepare_known, create_claim_spec_file, ensure_claim_cdi_artifacts,
  prepare_new, prepare_checked, prepare, unprepare, delete_claim_spec_file, with_ids,
}
use fake_gpu_operator.DomainPlugin.Valid.{is_prepared, is_some, IsValid}
use fake_gpu_operator.DomainPlugin.Refines.{
  KeepsCheckpoint, written, read_bind, checkpoint_of, ensure_claim_cdi_artifacts-Keeps,
}
use fake_gpu_operator.DomainPlugin.Restore.{unprepared-prepared}

-- The result of a call that ended in a state.
run-injective :
    {S A : Type 0} {s s' : S} {a b : A}
    → ◌≡◌ {A = S × Result A} (s, ok a) (s', ok b)
    → (s ≡ s') × (a ≡ b)
run-injective e = (ap (λ q. q.0) e, ok-injective (ap (λ q. q.1) e))

failed :
    {S A B : Type 0} {s s' : S} {x : Error} {b : B}
    → ◌≡◌ {A = S × Result B} (s, err x) (s', ok b)
    → A
failed e = absurd (err-ne-ok (ap (λ q. q.1) e))

module _ (n : Node) (k : KeepsCheckpoint n) where
  create_checkpoint-stored :
      (s s' : n.State) (cp : Checkpoint)
      → n.create_checkpoint s cp ≡ (s', ok tt)
      → n.get_checkpoint s' ≡ ok (some cp)
  create_checkpoint-stored s s' cp e =
      subst
        (λ (q : n.State × Result (Unit {0})).
          n.get_checkpoint q.0 ≡ written q.1 cp (n.get_checkpoint s))
        e (k.create_written s cp)

  -- The devices of a call that made the CDI spec are those it was given, with their ids.
  artifacts-ids :
      (uid : String) (devices devices' : List PreparedDevice) (s s' : n.State)
      → ensure_claim_cdi_artifacts n uid devices s ≡ (s', ok devices')
      → devices' ≡ map (with_ids n uid) devices
  unfolding ensure_claim_cdi_artifacts
  artifacts-ids uid [] devices' s s' e = failed e
  artifacts-ids uid (d ∷ ds) devices' s s' e =
      let all = map (with_ids n uid) (d ∷ ds) in
      let (s1, u, e1, e2) = >>=-eq-ok (create_claim_spec_file n uid all) (λ u. lift (ok all)) s e in
      sym (run-injective e2).1

  with_ids_twice :
      (uid : String) (ds : List PreparedDevice)
      → map (with_ids n uid) (map (with_ids n uid) ds) ≡ map (with_ids n uid) ds
  with_ids_twice uid [] = refl
  with_ids_twice uid (d ∷ ds) = ap (λ r. with_ids n uid d ∷ r) (with_ids_twice uid ds)

  module _ (allocatable : List String) (claim : DomainClaim) (cp : Checkpoint) where
    -- What is known after a claim was prepared anew: the checkpoint that was written, and that the
    -- devices have their ids.
    abbrev Written : n.State → List PreparedDevice → Type 0
    Written s' devices =
        (id : String) × (now : ℕ) × (n.get_checkpoint s'
          ≡ ok (some (prepared claim.uid id now devices cp)))
        × (map (with_ids n claim.uid) devices ≡ devices)

    prepare_in-Written :
        (id : String) (all : Bool) (now : ℕ) (found : Option DomainInfo) (s s' : n.State)
        (devices : List PreparedDevice)
        → prepare_in n allocatable claim cp id all now found s ≡ (s', ok devices)
        → Written s' devices
    unfolding prepare_in
    prepare_in-Written id all now none s s' devices e = failed e
    prepare_in-Written id all now (some info) s s' devices e =
        let store : List PreparedDevice → Eff n.State (List PreparedDevice) =
          λ ds. (λ t. n.create_checkpoint t (prepared claim.uid id now ds cp)) >> lift (ok ds) in
        let (s1, edits, e1, h1) =
          >>=-eq-ok (container_edits n info)
            (λ edits.
              ensure_claim_cdi_artifacts n claim.uid
                (devices_of_claim allocatable all claim.namespace (some edits))
              >>= store)
            s e in
        let asked = devices_of_claim allocatable all claim.namespace (some edits) in
        let (s2, ds, e2, h2) =
          >>=-eq-ok (ensure_claim_cdi_artifacts n claim.uid asked) store s1 h1 in
        let (s3, u, e3, h3) =
          >>=-eq-ok (λ t. n.create_checkpoint t (prepared claim.uid id now ds cp))
            (λ u. lift (ok ds)) s2 h2 in
        let (same_state, same) = run-injective h3 in
        let stored = create_checkpoint-stored s2 s3 _ e3 in
        let ids = artifacts-ids claim.uid asked ds s1 s2 e2 in
        (
          id,
          now,
          rw (← same_state, ← same) stored,
          rw (← same, ids) (with_ids_twice claim.uid asked),
        )

    prepare_checked-Written :
        (s s' : n.State) (devices : List PreparedDevice)
        → prepare_checked n allocatable claim cp s ≡ (s', ok devices)
        → Written s' devices
    unfolding prepare_checked prepare_new
    prepare_checked-Written s s' devices e =
        go (get_device_class_name claim.requests == "")
          ((extract_compute_domain_params n.unmarshal_params claim.configs).0 == "") e
      where
        go :
            (no_class no_id : Bool)
            → ◌≡◌ {A = n.State × Result (List PreparedDevice)}
                ((if no_class
                    then lift (err Result.no_device_class)
                    else (if no_id
                        then lift (err Result.no_domain_id)
                        else prepare_new n allocatable claim cp
                            (extract_compute_domain_params n.unmarshal_params claim.configs).0
                            (extract_compute_domain_params n.unmarshal_params claim.configs).1))
                  s)
                (s', ok devices)
            → Written s' devices
        go true no_id h = failed h
        go false true h = failed h
        go false false h = prepare_in-Written _ _ (n.now s) _ s s' devices h

    prepare-Written :
        (s s' : n.State) (stored : Option Checkpoint) (devices : List PreparedDevice)
        → n.get_checkpoint s ≡ ok stored
        → cp ≡ checkpoint_of stored
        → is_prepared claim.uid cp ≡ false
        → prepare n allocatable claim s ≡ (s', ok devices)
        → Written s' devices
    unfolding prepare prepare_known
    prepare-Written s s' stored devices h same new e =
        go (lookup claim.uid cp.prepared_claims) new (
          subst
            (λ c.
              prepare_known n allocatable claim c (lookup claim.uid c.prepared_claims) s
              ≡ (s', ok devices))
            (sym same)
            (sym (
                read_bind n
                  (λ c. prepare_known n allocatable claim c (lookup claim.uid c.prepared_claims)) s
                  stored h)
              ∙ e))
      where
        go :
            (found : Option (List PreparedDevice))
            → is_some found ≡ false
            → prepare_known n allocatable claim cp found s ≡ (s', ok devices)
            → Written s' devices
        go none new' run = prepare_checked-Written s s' devices run
        go (some ds) new' run = cc

  module _ (allocatable : List String) (claim : DomainClaim) (s s1 : n.State)
      (stored : Option Checkpoint) (devices : List PreparedDevice)
      (h : n.get_checkpoint s ≡ ok stored)
      (new : is_prepared claim.uid (checkpoint_of stored) ≡ false)
      (run : prepare n allocatable claim s ≡ (s1, ok devices)) where
    found_again :
        (id : String) (now : ℕ)
        → lookup claim.uid
            (prepared claim.uid id now devices (checkpoint_of stored)).prepared_claims
          ≡ some devices
    unfolding prepared
    found_again id now =
        lookup-insert claim.uid claim.uid devices (checkpoint_of stored).prepared_claims
        ∙ rw (eq_refl claim.uid) refl

    -- A claim that was prepared and is prepared again, as after a restart of the kubelet, gets the
    -- same devices, and the checkpoint stays as it was.
    pub prepare_again :
        (s2 : n.State) (devices2 : List PreparedDevice)
        → prepare n allocatable claim s1 ≡ (s2, ok devices2)
        → (devices2 ≡ devices) × (n.get_checkpoint s2 ≡ n.get_checkpoint s1)
    unfolding prepare prepare_known
    prepare_again s2 devices2 e =
        let (id, now, kept, ids) =
          prepare-Written allocatable claim (checkpoint_of stored) s s1 stored devices h refl new
            run in
        let cp1 = prepared claim.uid id now devices (checkpoint_of stored) in
        let e1 =
          sym (
            read_bind n
              (λ c. prepare_known n allocatable claim c (lookup claim.uid c.prepared_claims)) s1
              (some cp1) kept)
          ∙ e in
        let e2 : ensure_claim_cdi_artifacts n claim.uid devices s1 ≡ (s2, ok devices2) =
          subst (λ o. prepare_known n allocatable claim cp1 o s1 ≡ (s2, ok devices2))
            (found_again id now) e1 in
        (
          artifacts-ids claim.uid devices devices2 s1 s2 e2 ∙ ids,
          ap (λ q. n.get_checkpoint q.0) (sym e2)
              ∙ ensure_claim_cdi_artifacts-Keeps n k (n.get_checkpoint s1) claim.uid devices s1
                  refl,
        )

    -- Unpreparing a claim that was prepared restores the checkpoint that was there before.
    pub unprepare-prepare :
        (s2 : n.State)
        → IsValid (checkpoint_of stored)
        → unprepare n claim.uid s1 ≡ (s2, ok tt)
        → n.get_checkpoint s2 ≡ ok (some (checkpoint_of stored))
    unfolding unprepare unprepare_known
    unprepare-prepare s2 valid e =
        let (id, now, kept, ids) =
          prepare-Written allocatable claim (checkpoint_of stored) s s1 stored devices h refl new
            run in
        let cp1 = prepared claim.uid id now devices (checkpoint_of stored) in
        let e1 =
          sym (
            read_bind n (λ c. unprepare_known n claim.uid c (lookup claim.uid c.prepared_claims)) s1
              (some cp1) kept)
          ∙ e in
        let e2 : unprepare_known n claim.uid cp1 (some devices) s1 ≡ (s2, ok tt) =
          subst (λ o. unprepare_known n claim.uid cp1 o s1 ≡ (s2, ok tt)) (found_again id now) e1 in
        let (s3, u, e3, h3) =
          >>=-eq-ok (λ t. n.create_checkpoint t (unprepared claim.uid cp1))
            (λ u. delete_claim_spec_file n claim.uid) s1 e2 in
        ap n.get_checkpoint (sym (ap (λ q. q.0) h3))
        ∙ k.spec_removed s3 _
        ∙ create_checkpoint-stored s1 s3 _ e3
        ∙ ap (λ c. ok (some c))
            (unprepared-prepared claim.uid id now devices (checkpoint_of stored) new valid)
