-- ===== src/DomainPlugin/Refines.antt =====
-- The calls of the plugin refine the state machine of its checkpoint, whatever fails on the way.
use fake_gpu_operator.Base.{
  ℕ, String, ◌≡◌, refl, sym, ap, ◌∙◌, subst, Bool, true, false, ◌⊎◌, inl, inr, Option, none, some,
  List, [], ◌∷◌, map, ◌==◌, if◌then◌else◌,
}
use fake_gpu_operator.Base.Dict.{lookup}
use fake_gpu_operator.Base.Result.{Result, ok, err, panic, not_found}
use fake_gpu_operator.Base.Effect.{Eff, ◌>>=◌, lift, reads, bind_post}
use fake_gpu_operator.DomainPlugin.{
  Checkpoint, DomainClaim, DomainInfo, PreparedDevice, new_checkpoint, prepared, unprepared,
  devices_of_claim, get_device_class_name, extract_compute_domain_params,
}
use fake_gpu_operator.DomainPlugin.Files.{
  Node, CdiSpec, ensure_symlink, ensure_domain_device_nodes, container_edits, is_link_to,
  default_host_device_target, place_link, create_link, replace_link, channel_node,
}
use fake_gpu_operator.DomainPlugin.Calls.{
  prepare_in, prepare_known, unprepare_known, read_checkpoint, create_claim_spec_file,
  ensure_claim_cdi_artifacts, prepare_new, prepare_checked, prepare, unprepare, cdi_device,
  delete_claim_spec_file, with_ids,
}
use fake_gpu_operator.DomainPlugin.Valid.{is_prepared, IsValid, is_some}
use fake_gpu_operator.DomainPlugin.Steps.{Step, prepares, unprepares, Step-IsValid}

-- What the checkpoint file holds after a write: the checkpoint, or what it held, as the write is
-- atomic.
abbrev pub written :
    Result (Unit {0}) → Checkpoint → Result (Option Checkpoint) → Result (Option Checkpoint)
written (ok _) cp old = ok (some cp)
written (err _) cp old = old
written panic cp old = old

-- The checkpoint file is written by the checkpoint manager only.
pub record KeepsCheckpoint (n : Node) : Type 0 where
  pub create_written :
      (s : n.State) (cp : Checkpoint)
      → n.get_checkpoint (n.create_checkpoint s cp).0
        ≡ written (n.create_checkpoint s cp).1 cp (n.get_checkpoint s)
  pub spec_written :
      (s : n.State) (spec : CdiSpec) (name : String)
      → n.get_checkpoint (n.write_spec s spec name).0 ≡ n.get_checkpoint s
  pub spec_removed :
      (s : n.State) (name : String) → n.get_checkpoint (n.remove_spec s name).0 ≡ n.get_checkpoint s
  pub dirs_made :
      (s : n.State) (path : String) → n.get_checkpoint (n.make_dirs s path).0 ≡ n.get_checkpoint s
  pub file_removed :
      (s : n.State) (path : String) → n.get_checkpoint (n.remove s path).0 ≡ n.get_checkpoint s
  pub linked :
      (s : n.State) (target path : String)
      → n.get_checkpoint (n.symlink s target path).0 ≡ n.get_checkpoint s

module _ (n : Node) (k : KeepsCheckpoint n) (g : Result (Option Checkpoint)) where
  -- The checkpoint file holds `g`.
  abbrev pub Holds : n.State → Type 0
  Holds s = n.get_checkpoint s ≡ g

  abbrev pub Keeps : {A : Type 0} → Eff n.State A → Type 0
  Keeps m = (s : n.State) → Holds s → Holds (m s).0

  bind-Keeps :
      {A B : Type 0} (m : Eff n.State A) (f : A → Eff n.State B)
      → Keeps m
      → ((a : A) → Keeps (f a))
      → Keeps (m >>= f)
  bind-Keeps m f first second s h =
      bind_post Holds Holds m f s (λ t q. q) (first s h) (λ t a q. second a t q)

  create_link-Keeps : (path target : String) → Keeps (create_link n path target)
  create_link-Keeps path target s h = k.linked s target path ∙ h

  replace_link-Keeps : (path target : String) → Keeps (replace_link n path target)
  replace_link-Keeps path target =
      bind-Keeps (λ s. n.remove s path) (λ u. create_link n path target)
        (λ s h. k.file_removed s path ∙ h) (λ u. create_link-Keeps path target)

  place_link-Keeps :
      (path target : String) (found : Result Bool) (right : Bool)
      → Keeps (place_link n path target found right)
  unfolding place_link
  place_link-Keeps path target (ok true) true = λ s h. h
  place_link-Keeps path target (ok true) false = replace_link-Keeps path target
  place_link-Keeps path target (ok false) right = replace_link-Keeps path target
  place_link-Keeps path target (err not_found) right = create_link-Keeps path target
  place_link-Keeps path target (err _) right = λ s h. h
  place_link-Keeps path target panic right = λ s h. h

  ensure_symlink-Keeps : (path target : String) → Keeps (ensure_symlink n path target)
  unfolding ensure_symlink
  ensure_symlink-Keeps path target s =
      place_link-Keeps path target (n.lstat s path) (is_link_to n s path target) s

  container_edits-Keeps : (info : DomainInfo) → Keeps (container_edits n info)
  unfolding container_edits ensure_domain_device_nodes
  container_edits-Keeps info =
      let dir = n.join_path n.device_root info.domain_id in
      let channel = n.join_path dir "channel-0" in
      bind-Keeps _ _
        (bind-Keeps (λ s. n.make_dirs s dir) _ (λ s h. k.dirs_made s dir ∙ h)
          (λ u.
            bind-Keeps (ensure_symlink n channel default_host_device_target)
              (λ v. lift (ok (channel_node n channel ∷ [])))
              (ensure_symlink-Keeps channel default_host_device_target) (λ v s h. h)))
        (λ nodes s h. h)

  pub ensure_claim_cdi_artifacts-Keeps :
      (uid : String) (devices : List PreparedDevice)
      → Keeps (ensure_claim_cdi_artifacts n uid devices)
  unfolding ensure_claim_cdi_artifacts create_claim_spec_file
  ensure_claim_cdi_artifacts-Keeps uid [] = λ s h. h
  ensure_claim_cdi_artifacts-Keeps uid (d ∷ ds) =
      let specs = map (cdi_device n uid) (map (with_ids n uid) (d ∷ ds)) in
      bind-Keeps _ _
        (bind-Keeps (lift (n.minimum_version specs)) _ (λ s h. h)
          (λ version s h. k.spec_written s _ _ ∙ h))
        (λ u s h. h)

  -- What a call that began with the checkpoint `cp` may leave: the file as it was, or a step of it.
  abbrev pub Moves : Checkpoint → n.State → Type 0
  Moves cp s = Holds s ⊎ ((cp' : Checkpoint) × (n.get_checkpoint s ≡ ok (some cp')) × Step cp cp')

  create_checkpoint-Moves :
      (cp cp' : Checkpoint)
      → Step cp cp'
      → (s : n.State) → Holds s
      → Moves cp (n.create_checkpoint s cp').0
  create_checkpoint-Moves cp cp' step s h =
      go (n.create_checkpoint s cp').1 (k.create_written s cp' ∙ ap (written _ cp') h)
    where
      go :
          (r : Result (Unit {0}))
          → n.get_checkpoint (n.create_checkpoint s cp').0 ≡ written r cp' g
          → Moves cp (n.create_checkpoint s cp').0
      go (ok u) e = inr (cp', e, step)
      go (err x) e = inl e
      go panic e = inl e

  if-Moves :
      {A : Type 0} (cp : Checkpoint) (b : Bool) (m m' : Eff n.State A) (s : n.State)
      → Moves cp (m s).0
      → Moves cp (m' s).0
      → Moves cp ((if b then m else m') s).0
  if-Moves cp true m m' s h h' = h
  if-Moves cp false m m' s h h' = h'

  module _ (allocatable : List String) (claim : DomainClaim) (cp : Checkpoint)
      (new : is_prepared claim.uid cp ≡ false) where
    prepare_in-Moves :
        (id : String) (all : Bool) (now : ℕ) (found : Option DomainInfo) (s : n.State)
        → Holds s
        → Moves cp (prepare_in n allocatable claim cp id all now found s).0
    unfolding prepare_in
    prepare_in-Moves id all now none s h = inl h
    prepare_in-Moves id all now (some info) s h =
        bind_post Holds (Moves cp) (container_edits n info) _ s (λ t q. inl q)
          (container_edits-Keeps info s h)
          (λ t edits q.
            let devices = devices_of_claim allocatable all claim.namespace (some edits) in
            bind_post Holds (Moves cp) (ensure_claim_cdi_artifacts n claim.uid devices) _ t
              (λ t' q'. inl q') (ensure_claim_cdi_artifacts-Keeps claim.uid devices t q)
              (λ t' ds q'.
                bind_post (Moves cp) (Moves cp)
                  (λ t2. n.create_checkpoint t2 (prepared claim.uid id now ds cp))
                  (λ u. lift (ok ds)) t' (λ t2 m. m)
                  (create_checkpoint-Moves cp _ (prepares claim.uid id now ds new) t' q')
                  (λ t2 u m. m)))

    prepare_checked-Moves :
        (s : n.State) → Holds s → Moves cp (prepare_checked n allocatable claim cp s).0
    unfolding prepare_checked prepare_new
    prepare_checked-Moves s h =
        let (id, all) = extract_compute_domain_params n.unmarshal_params claim.configs in
        if-Moves cp (get_device_class_name claim.requests == "") _ _ s (inl h)
          (if-Moves cp (id == "") _ _ s (inl h) (prepare_in-Moves id all (n.now s) _ s h))

  prepare_known-Moves :
      (allocatable : List String) (claim : DomainClaim) (cp : Checkpoint)
      (found : Option (List PreparedDevice))
      → is_prepared claim.uid cp ≡ is_some found
      → (s : n.State) → Holds s
      → Moves cp (prepare_known n allocatable claim cp found s).0
  unfolding prepare_known
  prepare_known-Moves allocatable claim cp (some devices) e s h =
      inl (ensure_claim_cdi_artifacts-Keeps claim.uid devices s h)
  prepare_known-Moves allocatable claim cp none e s h =
      prepare_checked-Moves allocatable claim cp e s h

  unprepare_known-Moves :
      (uid : String) (cp : Checkpoint) (found : Option (List PreparedDevice))
      → is_prepared uid cp ≡ is_some found
      → (s : n.State) → Holds s
      → Moves cp (unprepare_known n uid cp found s).0
  unfolding unprepare_known
  unprepare_known-Moves uid cp none e s h = inl h
  unprepare_known-Moves uid cp (some devices) e s h =
      bind_post (Moves cp) (Moves cp) (λ t. n.create_checkpoint t (unprepared uid cp))
        (λ u. delete_claim_spec_file n uid) s (λ t m. m)
        (create_checkpoint-Moves cp _ (unprepares uid e) s h) (λ t u m. removal-Moves t m)
    where
      removal-Moves : (t : n.State) → Moves cp t → Moves cp (delete_claim_spec_file n uid t).0
      removal-Moves t (inl h') = inl (k.spec_removed t _ ∙ h')
      removal-Moves t (inr (cp', e', step)) = inr (cp', k.spec_removed t _ ∙ e', step)

-- A call of the plugin.
pub data Call : Type 0 where
  prepare_claim : DomainClaim → Call
  unprepare_claim : String → Call

abbrev pub checkpoint_of : Option Checkpoint → Checkpoint
checkpoint_of none = new_checkpoint
checkpoint_of (some cp) = cp

pub read_stored :
    (n : Node) (s : n.State) (stored : Option Checkpoint)
    → n.get_checkpoint s ≡ ok stored
    → read_checkpoint n s ≡ ok (checkpoint_of stored)
read_stored n s none h = rw (h, read_checkpoint) refl
read_stored n s (some cp) h = rw (h, read_checkpoint) refl

-- A call that reads the checkpoint goes on with what is stored.
pub read_bind :
    {A : Type 0} (n : Node) (f : Checkpoint → Eff n.State A) (s : n.State)
    (stored : Option Checkpoint)
    → n.get_checkpoint s ≡ ok stored
    → (reads (read_checkpoint n) >>= f) s ≡ f (checkpoint_of stored) s
read_bind n f s stored h = rw (read_stored n s stored h) refl

module _ (n : Node) (k : KeepsCheckpoint n) (allocatable : List String) where
  -- The files after a call.
  abbrev pub after : Call → n.State → n.State
  after (prepare_claim claim) s = (prepare n allocatable claim s).0
  after (unprepare_claim uid) s = (unprepare n uid s).0

  abbrev pub after_all : List Call → n.State → n.State
  after_all [] s = s
  after_all (c ∷ cs) s = after_all cs (after c s)

  -- Every call takes the checkpoint file by one step of the state machine, or leaves it alone,
  -- whether it succeeds or fails, if only the checkpoint manager writes the file, and atomically.
  pub after-Moves :
      (call : Call) (s : n.State) (stored : Option Checkpoint)
      → n.get_checkpoint s ≡ ok stored
      → (n.get_checkpoint (after call s) ≡ ok stored)
        ⊎ ((cp' : Checkpoint) × (n.get_checkpoint (after call s) ≡ ok (some cp'))
            × Step (checkpoint_of stored) cp')
  unfolding prepare unprepare
  after-Moves (prepare_claim claim) s stored h =
      let cp = checkpoint_of stored in
      subst (λ q. Moves n k (ok stored) cp q.0)
        (sym (
          read_bind n
            (λ c. prepare_known n allocatable claim c (lookup claim.uid c.prepared_claims)) s stored
            h))
        (prepare_known-Moves n k (ok stored) allocatable claim cp _ refl s h)
  after-Moves (unprepare_claim uid) s stored h =
      let cp = checkpoint_of stored in
      subst (λ q. Moves n k (ok stored) cp q.0)
        (sym (read_bind n (λ c. unprepare_known n uid c (lookup uid c.prepared_claims)) s stored h))
        (unprepare_known-Moves n k (ok stored) uid cp _ refl s h)

  -- After any calls, in any order and with any failures, the checkpoint file holds a valid
  -- checkpoint if it did before: each prepared claim is listed in exactly one place.
  pub after_all-IsValid :
      (calls : List Call) (s : n.State) (stored : Option Checkpoint)
      → n.get_checkpoint s ≡ ok stored
      → IsValid (checkpoint_of stored)
      → (stored' : Option Checkpoint) × (n.get_checkpoint (after_all calls s) ≡ ok stored')
        × IsValid (checkpoint_of stored')
  after_all-IsValid [] s stored h valid = (stored, h, valid)
  after_all-IsValid (c ∷ cs) s stored h valid = elim (after-Moves c s stored h) [
    | inl same ↦ after_all-IsValid cs (after c s) stored same valid
    | inr (cp', moved, step) ↦
        after_all-IsValid cs (after c s) (some cp') moved (Step-IsValid step valid)
  ]
