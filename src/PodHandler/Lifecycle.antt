-- ===== src/PodHandler/Lifecycle.antt =====
-- A dedicated pod's life on a node: its addition, a repeated addition after a restart, its deletion.
use fake_gpu_operator.Base.{
  ℕ, ◌+◌, ◌<◌, ◌≡◌, refl, sym, ap, ◌∙◌, true, false, not, ◌⊎◌, inl, inr, List, map, All, ◌==◌,
  arith, if◌then◌else◌, Bool-cases, nat_beq, nat_beq→eq,
}
use Prim.Native.Nat.{min}
use fake_gpu_operator.Base.Result.{ok, ok-injective}
use fake_gpu_operator.Base.Effect.{◌>>◌, lift, >>=-eq-ok}
use fake_gpu_operator.Topology.{GpuDetails, NodeTopology}
use fake_gpu_operator.Platform.{Platform, Pod, Container}
use fake_gpu_operator.PodHandler.Util.{is_gpu_reservation_pod, first_container}
use fake_gpu_operator.PodHandler.Usage.{calculate_usage}
use fake_gpu_operator.PodHandler.Gpus.{is_occupied_by_container, release, with_gpus}
use fake_gpu_operator.PodHandler.Reservation.{handle_gpu_reservation_pod_addition}
use fake_gpu_operator.PodHandler.Dedicated.{
  record_usage, allocate_free, is_already_allocated, dedicated_addition,
  handle_dedicated_gpu_pod_addition, handle_dedicated_gpu_pod_deletion,
}
use fake_gpu_operator.PodHandler.Allocation.{
  Grants, Grants-refl, free_count, allocated_by, allocate_free-Grants, allocate_free-count,
  record_usage-KeepsHolder,
}
use fake_gpu_operator.PodHandler.Release.{IsClean, release-Grants, occupied-Grants}

module _ (p : Platform) (pod : Pod) (c : Container) (t t' : NodeTopology) (s s' : p.State) where
  -- The loop's result, where the addition ran it.
  abbrev Allocates : Type 0
  Allocates =
      (gs : List GpuDetails) × (allocate_free pod c.name
          (record_usage (is_gpu_reservation_pod p pod) pod.uid
            (calculate_usage p s pod t.gpu_memory))
          c.gpu_limit t.gpus
        ≡ ok gs)
      × (t' ≡ with_gpus t gs)

  reservation_step :
      (gs : List GpuDetails) (s1 : p.State)
      → (handle_gpu_reservation_pod_addition p pod (with_gpus t gs) >> lift (ok (with_gpus t gs)))
          s1
        ≡ (s', ok t')
      → t' ≡ with_gpus t gs
  reservation_step gs s1 h =
      let (s2, u, e2, h2) =
        >>=-eq-ok (handle_gpu_reservation_pod_addition p pod (with_gpus t gs))
          (λ _. lift (ok (with_gpus t gs))) s1 h in
      sym (ok-injective (ap (λ q. q.1) h2))

  dedicated_addition-Allocates :
      is_already_allocated pod c t ≡ false
      → dedicated_addition p pod c t s ≡ (s', ok t')
      → Allocates
  unfolding dedicated_addition
  dedicated_addition-Allocates new h =
      let h' = rw new at h in
      let (s1, gs, e1, h1) =
        >>=-eq-ok
          (lift (
            allocate_free pod c.name
              (record_usage (is_gpu_reservation_pod p pod) pod.uid
                (calculate_usage p s pod t.gpu_memory))
              c.gpu_limit t.gpus))
          (λ gs.
            handle_gpu_reservation_pod_addition p pod (with_gpus t gs)
            >> lift (ok (with_gpus t gs)))
          s h' in
      (gs, ap (λ q. q.1) e1, reservation_step gs s1 h1)

module _ (p : Platform) (pod : Pod) (c : Container) (first : first_container pod ≡ ok c)
    (t : NodeTopology) where
  pub handle_addition_lem :
      (s : p.State)
      → handle_dedicated_gpu_pod_addition p pod t s
        ≡ (if not (nat_beq c.gpu_limit 0) then dedicated_addition p pod c t else lift (ok t)) s
  unfolding handle_dedicated_gpu_pod_addition
  handle_addition_lem s = rw first refl

  pub handle_deletion_lem :
      handle_dedicated_gpu_pod_deletion pod t
      ≡ ok (
          if not (nat_beq c.gpu_limit 0)
          then with_gpus t (release (is_occupied_by_container pod c.name) t.gpus)
          else t)
  unfolding handle_dedicated_gpu_pod_deletion
  handle_deletion_lem = rw first (ground arith)

pub known_addition :
    (p : Platform) (pod : Pod) (c : Container) (t : NodeTopology) (s : p.State)
    → is_already_allocated pod c t ≡ true
    → dedicated_addition p pod c t s ≡ (s, ok t)
unfolding dedicated_addition
known_addition p pod c t s known = rw known refl

fewer_free :
    (n free free' : ℕ) → nat_beq n 0 ≡ false → 0 < free → free' + min n free ≡ free → free' < free
fewer_free n free free' nz room count = ground arith

-- The cases of an addition that returned: not a dedicated pod, or a new one.
module _ (p : Platform) (pod : Pod) (c : Container) (first : first_container pod ≡ ok c)
    (t t' : NodeTopology) (s s' : p.State) where
  addition-new :
      is_already_allocated pod c t ≡ false
      → handle_dedicated_gpu_pod_addition p pod t s ≡ (s', ok t')
      → ((c.gpu_limit ≡ 0) × (t' ≡ t))
        ⊎ ((nat_beq c.gpu_limit 0 ≡ false) × Allocates p pod c t t' s s')
  addition-new new h =
      let h' = sym (handle_addition_lem p pod c first t s) ∙ h in
      elim (Bool-cases (nat_beq c.gpu_limit 0)) [
        | inl z ↦ inl (nat_beq→eq _ _ z, sym (ok-injective (ap (λ q. q.1) (rw z at h'))))
        | inr nz ↦ inr (nz, dedicated_addition-Allocates p pod c t t' s s' new (rw nz at h'))
      ]

  -- Adding a named dedicated pod that holds nothing yet gives it exactly as many GPUs as it asks
  -- for, or all that are free if there are fewer; each GPU given was free and keeps its id, every
  -- other GPU is untouched, and so is the rest of the topology.
  pub addition_exact :
      (pod.name == "") ≡ false
      → is_already_allocated pod c t ≡ false
      → handle_dedicated_gpu_pod_addition p pod t s ≡ (s', ok t')
      → Grants pod c.name t.gpus t'.gpus
        × (free_count t'.gpus + min c.gpu_limit (free_count t.gpus) ≡ free_count t.gpus)
        × (t' ≡ with_gpus t t'.gpus)
  addition_exact named new h = elim (addition-new new h) [
    | inl (z, e) ↦ rw e (Grants-refl pod c.name t.gpus, rw z (omega arith), refl)
    | inr (nz, (gs, run, e)) ↦ rw e (
      allocate_free-Grants pod c.name _ (record_usage-KeepsHolder _ _ _) c.gpu_limit t.gpus gs run,
      allocate_free-count pod c.name _ (record_usage-KeepsHolder _ _ _) named c.gpu_limit t.gpus gs
          run,
      refl,
    )
  ]

  -- Deleting a dedicated pod after its addition gives back what it was given: every GPU is held by
  -- the same container as before the addition, if GPUs without a pod had no namespace and no
  -- container, and the pod held nothing before.
  pub deletion_after_addition :
      All IsClean t.gpus
      → is_already_allocated pod c t ≡ false
      → handle_dedicated_gpu_pod_addition p pod t s ≡ (s', ok t')
      → (t'' : NodeTopology) × (handle_dedicated_gpu_pod_deletion pod t' ≡ ok t'')
        × (map allocated_by t''.gpus ≡ map allocated_by t.gpus)
  unfolding is_already_allocated
  deletion_after_addition clean new h = elim (addition-new new h) [
    | inl (z, e) ↦ (t', handle_deletion_lem p pod c first t' ∙ rw z refl, rw e refl)
    | inr (nz, (gs, run, e)) ↦ (
      with_gpus t' (release (is_occupied_by_container pod c.name) t'.gpus),
      handle_deletion_lem p pod c first t' ∙ rw nz refl,
      rw e (
          release-Grants pod c.name t.gpus gs clean new (
            allocate_free-Grants pod c.name _ (record_usage-KeepsHolder _ _ _) c.gpu_limit t.gpus gs
              run)),
    )
  ]

  -- A repeated addition of a dedicated pod, as after a restart, makes no call of the API server and
  -- changes nothing, if a GPU was free at the first one.
  pub addition_idempotent :
      (pod.name == "") ≡ false
      → is_already_allocated pod c t ≡ false
      → 0 < free_count t.gpus
      → handle_dedicated_gpu_pod_addition p pod t s ≡ (s', ok t')
      → (s2 : p.State) → handle_dedicated_gpu_pod_addition p pod t' s2 ≡ (s2, ok t')
  unfolding is_already_allocated
  addition_idempotent named new room h s2 = elim (addition-new new h) [
    | inl (z, e) ↦ handle_addition_lem p pod c first t' s2 ∙ rw z refl
    | inr (nz, (gs, run, e)) ↦
        let count =
          allocate_free-count pod c.name _ (record_usage-KeepsHolder _ _ _) named c.gpu_limit t.gpus
            gs run in
        let grants =
          allocate_free-Grants pod c.name _ (record_usage-KeepsHolder _ _ _) c.gpu_limit t.gpus gs
            run in
        let held = occupied-Grants pod c.name t.gpus gs grants (fewer_free _ _ _ nz room count) in
        handle_addition_lem p pod c first t' s2 ∙ rw nz (known_addition p pod c t' s2 (rw e held))
  ]
