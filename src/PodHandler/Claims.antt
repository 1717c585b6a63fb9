-- ===== src/PodHandler/Claims.antt =====
-- What the marking of a DRA pod's devices does to the GPUs of a node.
use fake_gpu_operator.Base.{
  String, ◌≡◌, refl, sym, Bool, true, false, inl, inr, List, [], ◌∷◌, ◌==◌, if◌then◌else◌, subst,
}
use fake_gpu_operator.Base.Result.{ok, ok-injective, >>=-eq-ok}
use fake_gpu_operator.Base.Text.{equal_fold}
use fake_gpu_operator.Topology.{GpuUsageStatus, GpuDetails, NodeTopology}
use fake_gpu_operator.Platform.{Platform, Pod}
use fake_gpu_operator.PodHandler.Usage.{calculate_usage}
use fake_gpu_operator.PodHandler.Util.{is_dra_pod}
use fake_gpu_operator.PodHandler.Gpus.{is_free, set_usage_made, allocate_to, with_gpus}
use fake_gpu_operator.PodHandler.Dra.{
  get_container_with_claim, get_device_names_from_claims, mark_device, mark_devices, dra_allocation,
  is_dra_already_allocated, handle_dra_gpu_pod_addition,
}
use fake_gpu_operator.PodHandler.Allocation.{Granted, Grants, Grants-refl}

module _ (pod : Pod) (usage : GpuUsageStatus) where
  abbrev container : String
  container = get_container_with_claim pod

  marked-Granted :
      (free : Bool) (g : GpuDetails)
      → is_free g ≡ free
      → Granted pod container g
          (if free then set_usage_made pod.uid usage (allocate_to pod container g) else g)
  unfolding set_usage_made
  marked-Granted true g e = inr (e, refl, refl)
  marked-Granted false g e = inl refl

  mark_device-Grants :
      (device : String) (gs : List GpuDetails)
      → Grants pod container gs (mark_device pod usage device gs)
  unfolding mark_device
  mark_device-Grants device [] = tt
  mark_device-Grants device (g ∷ gs) = go (equal_fold g.id device) (mark_device-Grants device gs)
    where
      go :
          (here : Bool)
          → Grants pod container gs (mark_device pod usage device gs)
          → Grants pod container (g ∷ gs) (
              if here
              then (if is_free g
                  then set_usage_made pod.uid usage (allocate_to pod container g)
                  else g)
                ∷ gs
              else g ∷ mark_device pod usage device gs)
      go true rest = (marked-Granted (is_free g) g refl, Grants-refl pod container gs)
      go false rest = (inl refl, rest)

  module _ (named : (pod.name == "") ≡ false) where
    Granted-trans :
        (g g' g'' : GpuDetails)
        → Granted pod container g g'
        → Granted pod container g' g''
        → Granted pod container g g''
    Granted-trans g g' g'' (inl e) k = subst (λ x. Granted pod container x g'') e k
    Granted-trans g g' g'' (inr h) (inl e) = subst (Granted pod container g) (sym e) (inr h)
    Granted-trans g g' g'' (inr (free, held, id)) (inr (free', held', id')) = cc (rw held at free')

    Grants-trans :
        (gs gs' gs'' : List GpuDetails)
        → Grants pod container gs gs'
        → Grants pod container gs' gs''
        → Grants pod container gs gs''
    Grants-trans [] [] [] h k = tt
    Grants-trans (g ∷ gs) (g' ∷ gs') (g'' ∷ gs'') (h, hs) (k, ks) =
        (Granted-trans g g' g'' h k, Grants-trans gs gs' gs'' hs ks)
    Grants-trans [] (g' ∷ gs') gs'' h k = absurd h
    Grants-trans [] [] (g'' ∷ gs'') h k = absurd k
    Grants-trans (g ∷ gs) [] gs'' h k = absurd h
    Grants-trans (g ∷ gs) (g' ∷ gs') [] h k = absurd k

    mark_devices-Grants :
        (devices : List String) (gs : List GpuDetails)
        → Grants pod container gs (mark_devices pod usage devices gs)
    unfolding mark_devices
    mark_devices-Grants [] gs = Grants-refl pod container gs
    mark_devices-Grants (device ∷ devices) gs =
        let once = mark_device pod usage device gs in
        Grants-trans gs once (mark_devices pod usage devices once) (mark_device-Grants device gs)
          (mark_devices-Grants devices once)

-- Adding a named DRA pod never takes a GPU from another pod: each GPU is as before, or it was free
-- and is now the pod's, under the same id; and nothing else of the topology changes.
pub dra_addition-Grants :
    (p : Platform) (pod : Pod) (t t' : NodeTopology) (s : p.State)
    → (pod.name == "") ≡ false
    → handle_dra_gpu_pod_addition p pod t s ≡ ok t'
    → Grants pod (get_container_with_claim pod) t.gpus t'.gpus × (t' ≡ with_gpus t t'.gpus)
unfolding handle_dra_gpu_pod_addition dra_allocation
dra_addition-Grants p pod t t' s named h = go (is_dra_pod pod) (is_dra_already_allocated pod t) h
  where
    unchanged :
        ok t ≡ ok t'
        → Grants pod (get_container_with_claim pod) t.gpus t'.gpus × (t' ≡ with_gpus t t'.gpus)
    unchanged e =
        subst
          (λ x. Grants pod (get_container_with_claim pod) t.gpus x.gpus × (x ≡ with_gpus t x.gpus))
          (ok-injective e) (Grants-refl pod (get_container_with_claim pod) t.gpus, refl)

    usage : GpuUsageStatus
    usage = calculate_usage p s pod t.gpu_memory

    go :
        (dra known : Bool)
        → (if dra then (if known then ok t else dra_allocation p pod t s) else ok t) ≡ ok t'
        → Grants pod (get_container_with_claim pod) t.gpus t'.gpus × (t' ≡ with_gpus t t'.gpus)
    go false known e = unchanged e
    go true true e = unchanged e
    go true false e =
        let (devices, read, marked) =
          >>=-eq-ok (get_device_names_from_claims p pod s)
            (λ ds. ok (with_gpus t (mark_devices pod usage ds t.gpus))) e in
        subst
          (λ x. Grants pod (get_container_with_claim pod) t.gpus x.gpus × (x ≡ with_gpus t x.gpus))
          (ok-injective marked) (mark_devices-Grants pod usage named devices t.gpus, refl)
