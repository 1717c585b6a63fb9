-- ===== src/Tests/Kwok.antt =====
-- The slices of a cluster with one KWOK node, and of a node that left.
use fake_gpu_operator.Base.{String, Bool, true, false, ◌≡◌, refl, ap, sym, [], ◌∷◌, ◌==◌, eq_refl}
use fake_gpu_operator.Base.Dict.{Dict, lookup, insert, erase, lookup-insert, lookup-erase}
use fake_gpu_operator.Base.Result.{Result, ok, err, or_err, not_found, err-ne-ok, ok-injective}
use fake_gpu_operator.Platform.{Node}
use fake_gpu_operator.KwokDomains.{
  NodeApi, ChannelSlice, channel_slice, channel_slice_name, reconcile,
}
use fake_gpu_operator.KwokDomains.Mirror.{KeepsSlices, Mirrors, reconcile-Mirrors}

abbrev node_named : String → Bool → Result Node
node_named name true = ok (record { name = name; labels = ("type", "kwok") ∷ []; annotations = [] })
node_named name false = err not_found

abbrev api : NodeApi
api = record {
  State = Dict ChannelSlice;
  get_node = λ s name. node_named name (name == "node-1");
  get_slice = λ s name. or_err (lookup name s) not_found;
  create_slice = λ s slice. (insert slice.name slice s, ok tt);
  update_slice = λ s slice. (insert slice.name slice s, ok tt);
  delete_slice = λ s name. (erase name s, ok tt);
}

node_named-name :
    (name : String) (b : Bool) (node : Node) → node_named name b ≡ ok node → node.name ≡ name
node_named-name name true node h = ap (λ (n : Node). n.name) (sym (ok-injective h))
node_named-name name false node h = absurd (err-ne-ok h)

stored :
    (s : Dict ChannelSlice) (slice : ChannelSlice)
    → (v : String) × (or_err (lookup slice.name (insert slice.name slice s)) not_found
        ≡ ok (record slice { resource_version = v }))
stored s slice = (
  slice.resource_version,
  rw (lookup-insert slice.name slice.name slice s, eq_refl slice.name) refl,
)

erased :
    (s : Dict ChannelSlice) (name : String)
    → or_err (lookup name (erase name s)) not_found ≡ err not_found
erased s name = rw (lookup-erase name name s, eq_refl name) refl

keeps : KeepsSlices api
keeps = record {
  node_key = λ s name node h. node_named-name name (name == "node-1") node h;
  created = λ s slice h. stored s slice;
  updated = λ s slice h. stored s slice;
  deleted = λ s name h. erased s name;
}

abbrev old : Dict ChannelSlice
old = insert "kwok-node-1-compute-domain-channel" (channel_slice "node-1" "7") []

reconcile-Mirrors_example :
    Mirrors "node-1"
      (api.get_node old "node-1")
      (api.get_slice (reconcile api "node-1" old).0 (channel_slice_name "node-1"))
unfolding reconcile lookup insert
reconcile-Mirrors_example =
    reconcile-Mirrors api keeps old (reconcile api "node-1" old).0 "node-1" refl
