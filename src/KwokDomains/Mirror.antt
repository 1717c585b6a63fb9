-- ===== src/KwokDomains/Mirror.antt =====
-- The slices mirror the nodes.
use fake_gpu_operator.Base.{String, [], ◌∷◌, ◌≡◌, refl, sym, ap, subst}
use fake_gpu_operator.Base.Result.{Result, ok, err, panic, not_found, err-ne-ok, panic-ne-ok}
use fake_gpu_operator.Base.Text.{decimal}
use fake_gpu_operator.DomainPlugin.{device_name_for_channel}
use fake_gpu_operator.Platform.{Node}
use fake_gpu_operator.NodeHandler.{ignore_not_found}
use fake_gpu_operator.KwokDomains.{
  NodeApi, ChannelSlice, channel_slice_name, channel_slice, write_slice, publish_slice,
  remove_slice, reconcile_node, reconcile,
}

-- The API server: a slice that was written is read back, under a version of the server's choice, and
-- one that was deleted, or was not there to delete, is gone.
pub record KeepsSlices (api : NodeApi) : Type 0 where
  pub node_key :
      (s : api.State) (name : String) (node : Node)
      → api.get_node s name ≡ ok node
      → node.name ≡ name
  pub created :
      (s : api.State) (slice : ChannelSlice)
      → (api.create_slice s slice).1 ≡ ok tt
      → (v : String) × (api.get_slice (api.create_slice s slice).0 slice.name
          ≡ ok (record slice { resource_version = v }))
  pub updated :
      (s : api.State) (slice : ChannelSlice)
      → (api.update_slice s slice).1 ≡ ok tt
      → (v : String) × (api.get_slice (api.update_slice s slice).0 slice.name
          ≡ ok (record slice { resource_version = v }))
  pub deleted :
      (s : api.State) (name : String)
      → ignore_not_found (api.delete_slice s name).1 ≡ ok tt
      → api.get_slice (api.delete_slice s name).0 name ≡ err not_found

-- The slice of a node, whatever its version: one slice of the node's pool, of the driver of compute
-- domains, which publishes the one channel 0.
pub record IsChannelSlice (name : String) (slice : ChannelSlice) : Type 0 where
  pub slice_name : slice.name ≡ channel_slice_name name
  pub slice_driver : slice.driver ≡ "compute-domain.nvidia.com"
  pub slice_node : slice.node_name ≡ name
  pub slice_pool : slice.pool_name ≡ name
  pub one_slice : slice.slice_count ≡ 1
  pub channel : slice.devices ≡ record { name = "channel-0"; device_type = "channel"; id = 0 } ∷ []

-- The slice that is there for a node, by what a read of the node finds.
pub data Mirrors (name : String) : Result Node → Result ChannelSlice → Type 0 where
  present :
      (node : Node) (slice : ChannelSlice)
      → IsChannelSlice name slice
      → Mirrors name (ok node) (ok slice)
  absent : Mirrors name (err not_found) (err not_found)

channel_slice-IsChannelSlice :
    (name version : String) → IsChannelSlice name (channel_slice name version)
unfolding channel_slice device_name_for_channel decimal
channel_slice-IsChannelSlice name version = record {
  slice_name = refl;
  slice_driver = refl;
  slice_node = refl;
  slice_pool = refl;
  one_slice = refl;
  channel = refl;
}

module _ (api : NodeApi) (k : KeepsSlices api) where
  write_slice-present :
      (s s' : api.State) (name : String) (node : Node) (found : Result ChannelSlice)
      → write_slice api name found s ≡ (s', ok tt)
      → Mirrors name (ok node) (api.get_slice s' (channel_slice_name name))
  unfolding write_slice channel_slice
  write_slice-present s s' name node (ok existing) e =
      let (v, stored) =
        k.updated s (channel_slice name existing.resource_version) (ap (λ q. q.1) e) in
      subst (λ y. Mirrors name (ok node) (api.get_slice y (channel_slice_name name)))
        (ap (λ q. q.0) e)
        (subst (Mirrors name (ok node)) (sym stored)
          (present node (channel_slice name v) (channel_slice-IsChannelSlice name v)))
  write_slice-present s s' name node (err not_found) e =
      let (v, stored) = k.created s (channel_slice name "") (ap (λ q. q.1) e) in
      subst (λ y. Mirrors name (ok node) (api.get_slice y (channel_slice_name name)))
        (ap (λ q. q.0) e)
        (subst (Mirrors name (ok node)) (sym stored)
          (present node (channel_slice name v) (channel_slice-IsChannelSlice name v)))
  write_slice-present s s' name node (err e') e = absurd (err-ne-ok (ap (λ q. q.1) e))
  write_slice-present s s' name node panic e = absurd (panic-ne-ok (ap (λ q. q.1) e))

  remove_slice-absent :
      (s s' : api.State) (name : String)
      → remove_slice api name s ≡ (s', ok tt)
      → Mirrors name (err not_found) (api.get_slice s' (channel_slice_name name))
  unfolding remove_slice
  remove_slice-absent s s' name e =
      subst (λ y. Mirrors name (err not_found) (api.get_slice y (channel_slice_name name)))
        (ap (λ q. q.0) e)
        (subst (Mirrors name (err not_found))
          (sym (k.deleted s (channel_slice_name name) (ap (λ q. q.1) e))) absent)

  -- After a reconciliation that succeeded the API server holds the slice of the node, which publishes
  -- the one channel 0, if the node was there, and no slice if it was not.
  pub reconcile-Mirrors :
      (s s' : api.State) (name : String)
      → reconcile api name s ≡ (s', ok tt)
      → Mirrors name (api.get_node s name) (api.get_slice s' (channel_slice_name name))
  unfolding reconcile reconcile_node publish_slice
  reconcile-Mirrors s s' name e = go (api.get_node s name) refl e
    where
      go :
          (r : Result Node)
          → api.get_node s name ≡ r
          → reconcile_node api name r s ≡ (s', ok tt)
          → Mirrors name r (api.get_slice s' (channel_slice_name name))
      go (ok node) found h =
          let same = k.node_key s name node found in
          write_slice-present s s' name node (api.get_slice s (channel_slice_name name))
            (subst (λ m. publish_slice api m s ≡ (s', ok tt)) same h)
      go (err not_found) found h = remove_slice-absent s s' name h
      go (err e') found h = absurd (err-ne-ok (ap (λ q. q.1) h))
      go panic found h = absurd (panic-ne-ok (ap (λ q. q.1) h))
