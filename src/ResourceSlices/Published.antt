-- ===== src/ResourceSlices/Published.antt =====
-- The devices that a resource slice publishes.
use Prim.Native.String
use fake_gpu_operator.Base.Int.{wrap_int64, scale}
use fake_gpu_operator.Base.{
  if◌then◌else◌, ℕ, ◌≡◌, refl, ap, subst, String, Bool, true, false, inl, inr, List, [], ◌∷◌, map,
  some, any, All, get_elem?, zero, suc, ◌==◌, ◌||◌, arith, nat_beq, Bool-cases,
}
use mathlib.Core.Option.{some-injective}
use fake_gpu_operator.Base.Dict.{lookup}
use fake_gpu_operator.Base.Text.{codes, to_lower, fold_eq, equal_fold}
use fake_gpu_operator.Base.Result.{Result, ok, err, panic, not_found, err-ne-ok, panic-ne-ok}
use fake_gpu_operator.Topology.{GpuDetails, NodeTopology}
use fake_gpu_operator.Topology.ConfigMaps.{label_node_name, from_node_topology_cm}
use fake_gpu_operator.Platform.{Platform, ConfigMap}
use fake_gpu_operator.ResourceSlices.{
  Device, ResourceSlice, SliceApi, resource_slice_name, devices_of_gpus, slice_of,
  devices_from_topology, create_or_update_resource_slice, handle_add_or_update,
}

to_lower_twice : (c : ℕ) → nat_beq (to_lower c) (to_lower (to_lower c)) ≡ true
to_lower_twice c = ground arith

fold_eq-to_lower : (cs : List ℕ) → fold_eq cs (map to_lower cs) ≡ true
fold_eq-to_lower [] = refl
fold_eq-to_lower (c ∷ cs) = rw (to_lower_twice c) (fold_eq-to_lower cs)

-- Some GPU answers to a device's name.
abbrev IsKnown : List GpuDetails → Device → Type 0
IsKnown gpus d = any (λ gpu. fold_eq (codes gpu.id) d.name) gpus ≡ true

later : (a b : Bool) → b ≡ true → (a || b) ≡ true
later a b h = ground arith

All-later :
    (g : GpuDetails) (gs : List GpuDetails) (ds : List Device)
    → All (IsKnown gs) ds
    → All (IsKnown (g ∷ gs)) ds
All-later g gs [] h = tt
All-later g gs (d ∷ ds) (k, h) = (later _ _ k, All-later g gs ds h)

devices-IsKnown :
    (t : NodeTopology) (gs : List GpuDetails) → All (IsKnown gs) (devices_of_gpus t gs)
unfolding devices_of_gpus
devices-IsKnown t [] = tt
devices-IsKnown t (g ∷ gs) =
    let rest = All-later g gs (devices_of_gpus t gs) (devices-IsKnown t gs) in
    elim (Bool-cases (g.id == "")) [
      | inl e ↦ rw e rest
      | inr e ↦ rw e (rw (fold_eq-to_lower (codes g.id)) refl, rest)
    ]

All-get :
    (gs : List GpuDetails) (ds : List Device) (i : ℕ) (d : Device)
    → All (IsKnown gs) ds
    → get_elem? ds i ≡ some d
    → IsKnown gs d
All-get gs [] i d h e = cc
All-get gs (x ∷ ds) zero d (k, h) e = subst (IsKnown gs) (some-injective x d e) k
All-get gs (x ∷ ds) (suc i) d (k, h) e = All-get gs ds i d h e

-- A claim's device that was taken from the slice of a topology is found by the pod handler: the
-- comparison that looks for it finds a GPU of that topology, though the name is in lower case.
pub devices_from_topology_found :
    (t : NodeTopology) (i : ℕ) (d : Device) (name : String)
    → get_elem? (devices_from_topology t) i ≡ some d
    → codes name ≡ d.name
    → any (λ gpu. equal_fold gpu.id name) t.gpus ≡ true
unfolding devices_from_topology equal_fold
devices_from_topology_found t i d name at e =
    rw e (All-get t.gpus (devices_of_gpus t t.gpus) i d (devices-IsKnown t t.gpus) at)

-- A slice that was created or updated is read back, under a version of the server's choice.
pub record KeepsSlices (p : Platform) (api : SliceApi p) : Type 0 where
  pub created :
      (s : p.State) (slice : ResourceSlice)
      → (api.create_slice s slice).1 ≡ ok tt
      → (v : String) × (api.get_slice (api.create_slice s slice).0 slice.name
          ≡ ok (record slice { resource_version = v }))
  pub updated :
      (s : p.State) (slice : ResourceSlice)
      → (api.update_slice s slice).1 ≡ ok tt
      → (v : String) × (api.get_slice (api.update_slice s slice).0 slice.name
          ≡ ok (record slice { resource_version = v }))

-- The GPUs that are published: those with an id, in order.
abbrev pub ids_of : List GpuDetails → List String
ids_of [] = []
ids_of (g ∷ gs) = let rest = ids_of gs in if g.id == "" then rest else g.id ∷ rest

-- A device of a GPU: named after its id in lower case, with its id, the product and the memory in
-- bytes, at 64 bits.
pub record IsDeviceOf (t : NodeTopology) (id : String) (d : Device) : Type 0 where
  pub named : d.name ≡ map to_lower (codes id)
  pub of_id : lookup "gpu.nvidia.com/uuid" d.attributes ≡ some id
  pub of_gpu : lookup "gpu.nvidia.com/type" d.attributes ≡ some "gpu"
  pub of_product : lookup "gpu.nvidia.com/productName" d.attributes ≡ some t.gpu_product
  pub bytes : d.memory ≡ wrap_int64 (scale t.gpu_memory 1048576)

-- One device for each id, in order.
abbrev pub AreDevicesOf : NodeTopology → List String → List Device → Type 0
AreDevicesOf t [] [] = Unit
AreDevicesOf t (id ∷ ids) (d ∷ ds) = IsDeviceOf t id d × AreDevicesOf t ids ds
AreDevicesOf t _ _ = ⊥

-- The slice of a node's topology.
pub record IsSliceOf (node_name : String) (t : NodeTopology) (slice : ResourceSlice) : Type 0 where
  pub slice_name : slice.name ≡ String.◌++◌ "kwok-" (String.◌++◌ node_name "-gpu")
  pub slice_driver : slice.driver ≡ "gpu.nvidia.com"
  pub slice_node : slice.node_name ≡ node_name
  pub slice_pool : slice.pool_name ≡ node_name
  pub one_slice : slice.slice_count ≡ 1
  pub slice_devices : AreDevicesOf t (ids_of t.gpus) slice.devices

devices-AreDevicesOf :
    (t : NodeTopology) (gs : List GpuDetails) → AreDevicesOf t (ids_of gs) (devices_of_gpus t gs)
unfolding devices_of_gpus lookup
devices-AreDevicesOf t [] = tt
devices-AreDevicesOf t (g ∷ gs) =
    let rest = devices-AreDevicesOf t gs in
    elim (Bool-cases (g.id == "")) [
      | inl e ↦ rw e rest
      | inr e ↦ rw e (
        record { named = refl; of_id = refl; of_gpu = refl; of_product = refl; bytes = refl },
        rest,
      )
    ]

slice_of-IsSliceOf :
    (node_name : String) (t : NodeTopology) (v : String)
    → IsSliceOf node_name t (slice_of node_name t v)
unfolding slice_of devices_from_topology
slice_of-IsSliceOf node_name t v = record {
  slice_name = refl;
  slice_driver = refl;
  slice_node = refl;
  slice_pool = refl;
  one_slice = refl;
  slice_devices = devices-AreDevicesOf t t.gpus;
}

module _ (p : Platform) (api : SliceApi p) (keeps : KeepsSlices p api) (node_name : String)
    (t : NodeTopology) where
  -- What the API server holds after a success.
  abbrev Holds : p.State → Type 0
  Holds s' =
      (v : String) × (api.get_slice s' (resource_slice_name node_name)
        ≡ ok (slice_of node_name t v))

  create_or_update-Holds :
      (s s' : p.State)
      → create_or_update_resource_slice p api node_name t s ≡ (s', ok tt)
      → Holds s'
  unfolding create_or_update_resource_slice slice_of
  create_or_update-Holds s s' h = go (api.get_slice s (resource_slice_name node_name)) h
    where
      go :
          (existing : Result ResourceSlice)
          → ◌≡◌ {A = p.State × Result (Unit {0})}
              (elim existing [
                | ok existing' ↦
                    api.update_slice s (slice_of node_name t existing'.resource_version)
                | err not_found ↦ api.create_slice s (slice_of node_name t "")
                | err e ↦ (s, err e)
                | panic ↦ (s, panic)
              ])
              (s', ok tt)
          → Holds s'
      go (ok existing) e =
          subst Holds (ap (λ q. q.0) e)
            (keeps.updated s (slice_of node_name t existing.resource_version) (ap (λ q. q.1) e))
      go (err not_found) e =
          subst Holds (ap (λ q. q.0) e)
            (keeps.created s (slice_of node_name t "") (ap (λ q. q.1) e))
      go (err _) e = absurd (err-ne-ok (ap (λ q. q.1) e))
      go panic e = absurd (panic-ne-ok (ap (λ q. q.1) e))

  -- After an addition or an update of a node's ConfigMap that succeeded, the API server, if it keeps
  -- the slices that it is given, holds the slice of the topology in it: under the node's name, with
  -- one device for each GPU that has an id.
  pub handle_add_or_update_published :
      (cm : ConfigMap) (s s' : p.State)
      → lookup label_node_name cm.labels ≡ some node_name
      → (node_name == "") ≡ false
      → from_node_topology_cm p cm ≡ ok t
      → handle_add_or_update p api cm s ≡ (s', ok tt)
      → (slice : ResourceSlice) × (api.get_slice s' (resource_slice_name node_name) ≡ ok slice)
        × IsSliceOf node_name t slice
  unfolding handle_add_or_update
  handle_add_or_update_published cm s s' labelled named parsed h =
      let (v, held) = create_or_update-Holds s s' (rw (labelled, named, parsed) at h) in
      (slice_of node_name t v, held, slice_of-IsSliceOf node_name t v)
