-- ===== src/Tests/Slices.antt =====
-- The resource slice of a KWOK node with two GPUs.
use fake_gpu_operator.Base.{String, true, ◌≡◌, refl, any, [], ◌∷◌, some, eq_refl}
use fake_gpu_operator.Base.Dict.{lookup, insert, erase, lookup-insert}
use fake_gpu_operator.Base.Text.{equal_fold}
use fake_gpu_operator.Base.Result.{ok, or_err, not_found}
use fake_gpu_operator.Topology.{NodeTopology}
use fake_gpu_operator.Topology.ConfigMaps.{from_node_topology_cm}
use fake_gpu_operator.Platform.{Platform}
use fake_gpu_operator.ResourceSlices.{
  SliceApi, ResourceSlice, resource_slice_name, slice_of, device_of, devices_from_topology,
  handle_add_or_update,
}
use fake_gpu_operator.ResourceSlices.Published.{
  KeepsSlices, IsSliceOf, devices_from_topology_found, handle_add_or_update_published,
}
use fake_gpu_operator.Tests.Memory.{Memory, memory, gpu, topology, topology_cm, server}

abbrev node : NodeTopology
node = topology (gpu "GPU-1" "" ∷ gpu "" "" ∷ gpu "GPU-2" "" ∷ [])

abbrev platform : Platform
platform = memory node

abbrev slices : SliceApi platform
slices = record {
  get_slice = λ s name. or_err (lookup name s.slices) not_found;
  create_slice = λ s slice. (record s { slices = insert slice.name slice s.slices }, ok tt);
  update_slice = λ s slice. (record s { slices = insert slice.name slice s.slices }, ok tt);
  delete_slice = λ s name. (record s { slices = erase name s.slices }, ok tt);
}

kept :
    (s : Memory) (slice : ResourceSlice)
    → (v : String) × (or_err (lookup slice.name (insert slice.name slice s.slices)) not_found
        ≡ ok (record slice { resource_version = v }))
kept s slice = (
  slice.resource_version,
  rw (lookup-insert slice.name slice.name slice s.slices, eq_refl slice.name) refl,
)

keeps : KeepsSlices platform slices
keeps = record { created = λ s slice done. kept s slice; updated = λ s slice done. kept s slice }

published :
    devices_from_topology node
    ≡ device_of node (gpu "GPU-1" "") ∷ device_of node (gpu "GPU-2" "") ∷ []
unfolding devices_from_topology
published = refl

devices_from_topology_found_example : any (λ g. equal_fold g.id "gpu-2") node.gpus ≡ true
devices_from_topology_found_example =
    devices_from_topology_found node 1 (device_of node (gpu "GPU-2" "")) "gpu-2" (rw published refl)
      refl

abbrev after : Memory
after = record server { slices = (resource_slice_name "node", slice_of "node" node "") ∷ [] }

publishing : handle_add_or_update platform slices topology_cm server ≡ (after, ok tt)
unfolding handle_add_or_update lookup insert slice_of
publishing = refl

parsed : from_node_topology_cm platform topology_cm ≡ ok node
unfolding from_node_topology_cm lookup
parsed = refl

labelled : lookup "node-name" topology_cm.labels ≡ some "node"
unfolding lookup
labelled = refl

handle_add_or_update_published_example :
    (slice : ResourceSlice) × (slices.get_slice after (resource_slice_name "node") ≡ ok slice)
    × IsSliceOf "node" node slice
handle_add_or_update_published_example =
    handle_add_or_update_published platform slices keeps "node" node topology_cm server after
      labelled refl parsed publishing
