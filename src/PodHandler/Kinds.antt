-- ===== src/PodHandler/Kinds.antt =====
-- The handlers of dedicated and of shared pods never panic, on GPUs with usage maps.
use fake_gpu_operator.Base.{
  ◌≡◌, false, inl, inr, List, [], ◌∷◌, Option, none, some, find, All, ◌==◌, if◌then◌else◌,
  Bool-cases, nat_beq,
}
use fake_gpu_operator.Base.Result.{Result, ok, err, panic, Returns}
use fake_gpu_operator.Base.Effect.{Eff, ◌>>=◌, ◌>>◌, lift, reads}
use fake_gpu_operator.Base.Effect
use fake_gpu_operator.Topology.{GpuDetails, NodeTopology}
use fake_gpu_operator.Platform.{Platform, Pod, Container}
use fake_gpu_operator.PodHandler.Util.{
  has, is_gpu_reservation_pod, is_shared_gpu_pod, first_container,
  annotation_reservation_pod_gpu_idx,
}
use fake_gpu_operator.PodHandler.Usage.{calculate_usage}
use fake_gpu_operator.PodHandler.Gpus.{with_gpus}
use fake_gpu_operator.PodHandler.Reservation.{
  id_of, find_pod_gpu_id, handle_gpu_reservation_pod_addition,
}
use fake_gpu_operator.PodHandler.Dedicated.{
  record_usage, allocate_free, is_already_allocated, dedicated_addition,
  handle_dedicated_gpu_pod_addition, handle_dedicated_gpu_pod_update,
}
use fake_gpu_operator.PodHandler.Shared.{
  handle_shared_gpu_pod_addition, handle_shared_gpu_pod_update, handle_shared_gpu_pod_deletion,
  at_reservation_gpu,
}
use fake_gpu_operator.PodHandler.Allocation.{IsInitialized}
use fake_gpu_operator.PodHandler.Lifecycle.{handle_addition_lem}
use fake_gpu_operator.PodHandler.Safety.{
  KeepsAll, Initialized, allocate_free-Initialized, update_where-Initialized,
  record_usage-KeepsInitialized, delete_usage-KeepsAll,
}
use fake_gpu_operator.PodHandler.NoPanic.{
  IsResponsive, FineAt, Fine, at_index-FineAt, at_reservation_gpu-FineAt,
}

module _ (p : Platform) (r : IsResponsive p) (pod : Pod) where
  id_of-Returns : (o : Option GpuDetails) → Returns (id_of o)
  id_of-Returns none = tt
  id_of-Returns (some gpu) = tt

  reservation-Returns :
      (t : NodeTopology) (s : p.State) → Returns (handle_gpu_reservation_pod_addition p pod t s).1
  unfolding handle_gpu_reservation_pod_addition
  reservation-Returns t s = elim (Bool-cases (is_gpu_reservation_pod p pod)) [
    | inr e ↦ rw e tt
    | inl e ↦ rw e (elim (Bool-cases (has annotation_reservation_pod_gpu_idx pod.annotations)) [
      | inl known ↦ rw known tt
      | inr new ↦ rw new (
          Effect.Returns-bind (lift (find_pod_gpu_id pod t)) _ s
            (id_of-Returns (find (λ gpu. gpu.status.allocated_by.pod == pod.name) t.gpus))
            (λ s' id _. r.pod_annotated s' pod.namespace pod.name _ id))
    ])
  ]

  then-Fine :
      (t : NodeTopology) (m : Eff p.State (Unit {0})) (s : p.State)
      → All IsInitialized t.gpus
      → Returns (m s).1
      → Fine ((m >> lift (ok t)) s).1
  then-Fine t m s h returns = go (m s) returns
    where
      go :
          (q : p.State × Result (Unit {0}))
          → Returns q.1
          → Fine (Effect.continue q.1 (λ _. lift (ok t)) q.0).1
      go (s', ok u) a = h
      go (s', err e) a = tt
      go (s', panic) a = a

  dedicated_addition-Fine :
      (c : Container) (t : NodeTopology) (s : p.State)
      → All IsInitialized t.gpus
      → Fine (dedicated_addition p pod c t s).1
  unfolding dedicated_addition
  dedicated_addition-Fine c t s h = elim (Bool-cases (is_already_allocated pod c t)) [
    | inl e ↦ rw e h
    | inr e ↦ rw e (
        go
          (allocate_free pod c.name
            (record_usage (is_gpu_reservation_pod p pod) pod.uid
              (calculate_usage p s pod t.gpu_memory))
            c.gpu_limit t.gpus)
          (allocate_free-Initialized _ (record_usage-KeepsInitialized _ _ _) pod c.name c.gpu_limit
            t.gpus h))
  ]
    where
      go :
          (q : Result (List GpuDetails))
          → Initialized q
          → Fine
              ((lift q >>= λ gpus.
                  handle_gpu_reservation_pod_addition p pod (with_gpus t gpus)
                  >> lift (ok (with_gpus t gpus)))
                s).1
      go (ok gs) a =
          then-Fine (with_gpus t gs) (handle_gpu_reservation_pod_addition p pod (with_gpus t gs)) s
            a (reservation-Returns (with_gpus t gs) s)
      go (err e) a = tt
      go panic a = a

  shared-Fine :
      (P : GpuDetails → Type 0) (step : GpuDetails → Result GpuDetails)
      → KeepsAll P step
      → (t : NodeTopology) (s : p.State) → All P t.gpus
      → FineAt P (if is_shared_gpu_pod p pod then at_reservation_gpu p pod step t s else ok t)
  shared-Fine P step keeps t s h = elim (Bool-cases (is_shared_gpu_pod p pod)) [
    | inl e ↦ rw e (at_reservation_gpu-FineAt p r pod s P step keeps t h)
    | inr e ↦ rw e h
  ]

  pub shared_addition-Fine :
      (t : NodeTopology) (s : p.State)
      → All IsInitialized t.gpus
      → Fine (handle_shared_gpu_pod_addition p pod t s)
  unfolding handle_shared_gpu_pod_addition record_usage
  shared_addition-Fine t s h =
      shared-Fine IsInitialized _ (record_usage-KeepsInitialized false _ _) t s h

  pub shared_update-Fine :
      (t : NodeTopology) (s : p.State)
      → All IsInitialized t.gpus
      → Fine (handle_shared_gpu_pod_update p pod t s)
  unfolding handle_shared_gpu_pod_update record_usage
  shared_update-Fine t s h =
      shared-Fine IsInitialized _ (record_usage-KeepsInitialized false _ _) t s h

module _ (p : Platform) (r : IsResponsive p) (pod : Pod) (c : Container)
    (first : first_container pod ≡ ok c) where
  pub dedicated_addition_handler-Fine :
      (t : NodeTopology) (s : p.State)
      → All IsInitialized t.gpus
      → Fine (handle_dedicated_gpu_pod_addition p pod t s).1
  dedicated_addition_handler-Fine t s h =
      rw (handle_addition_lem p pod c first t s) (elim (Bool-cases (nat_beq c.gpu_limit 0)) [
        | inl z ↦ rw z h
        | inr nz ↦ rw nz (dedicated_addition-Fine p r pod c t s h)
      ])

  pub dedicated_update-Fine :
      (t : NodeTopology) (s : p.State)
      → All IsInitialized t.gpus
      → Fine (handle_dedicated_gpu_pod_update p pod t s)
  unfolding handle_dedicated_gpu_pod_update
  dedicated_update-Fine t s h = rw first (elim (Bool-cases (nat_beq c.gpu_limit 0)) [
    | inl z ↦ rw z h
    | inr nz ↦ rw nz (
        at_index-FineAt IsInitialized t _
          (update_where-Initialized _ (record_usage-KeepsInitialized _ _ _) _ t.gpus h))
  ])

pub everywhere : (gs : List GpuDetails) → All (λ g. Unit {0}) gs
everywhere [] = tt
everywhere (g ∷ gs) = (tt, everywhere gs)

module _ (p : Platform) (r : IsResponsive p) (pod : Pod) where
  pub shared_deletion-FineAt :
      (t : NodeTopology) (s : p.State)
      → FineAt (λ g. Unit) (handle_shared_gpu_pod_deletion p pod t s)
  unfolding handle_shared_gpu_pod_deletion
  shared_deletion-FineAt t s =
      shared-Fine p r pod (λ g. Unit) _ (delete_usage-KeepsAll pod.uid) t s (everywhere t.gpus)
