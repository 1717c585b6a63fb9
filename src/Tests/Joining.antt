-- ===== src/Tests/Joining.antt =====
-- A node that joins a pool in the old format with two GPUs.
use fake_gpu_operator.Base.{
  ap, String, Option, ◌++◌, ◌==◌, Bool-cases, inl, inr, ◌⊎◌, false, ◌≡◌, refl, [], ◌∷◌, some, none,
  length, All, arith,
}
use fake_gpu_operator.Base.Dict.{Dict, lookup}
use fake_gpu_operator.Base.Int.{pos}
use fake_gpu_operator.Base.Result.{Result, ok, err, not_found}
use fake_gpu_operator.Topology.{NodeTopology, NodePoolTopology}
use fake_gpu_operator.Topology.ConfigMaps.{get_node_topology_from_cm, delete_node_topology_cm}
use fake_gpu_operator.Topology.Normalize.{normalize_node_pool}
use fake_gpu_operator.Topology.RoundTrip.{normalized}
use fake_gpu_operator.Platform.{Platform, Node}
use fake_gpu_operator.NodeHandler.{
  NodeHandler, initial_topology, labels_of, handle_add, handle_delete,
}
use fake_gpu_operator.NodeHandler.Creation.{IsFresh, initial_topology_declared}
use fake_gpu_operator.NodeHandler.Labels.{Labels, handle_delete-unlabelled}
use fake_gpu_operator.Tests.Memory.{Memory, memory, topology, server}

abbrev platform : Platform
platform = memory (topology [])

abbrev pool : NodePoolTopology
pool = record {
  gpu_count = pos 2;
  gpu_memory = pos 11441;
  gpu_product = "Tesla-K80";
  other_devices = [];
}

pool_normalized : normalize_node_pool pool ≡ ok (normalized pool 2)
unfolding normalize_node_pool
pool_normalized = refl

abbrev handler : NodeHandler
handler = record {
  cluster_config = record {
    node_pool_label_key = "run.ai/pool";
    mig_strategy = "mixed";
    node_pools = ("default", normalized pool 2) ∷ [];
    gpu_operator = none;
  };
  disable_labeling = false;
}

abbrev node : Node
node = record { name = "node"; labels = ("run.ai/pool", "default") ∷ []; annotations = [] }

in_pool : lookup "run.ai/pool" node.labels ≡ some "default"
unfolding lookup
in_pool = refl

pool_known : lookup "default" handler.cluster_config.node_pools ≡ some (normalized pool 2)
unfolding lookup
pool_known = refl

initial_topology_declared_example :
    (t : NodeTopology) × (initial_topology platform handler node server ≡ ok t)
    × (t.gpu_product ≡ pool.gpu_product)
    × (t.gpu_memory ≡ pool.gpu_memory)
    × (length t.gpus ≡ 2)
    × All IsFresh t.gpus
initial_topology_declared_example =
    initial_topology_declared platform handler node server "default" pool (normalized pool 2) 11441
      2 in_pool pool_known pool_normalized refl refl (omega arith)

given : lookup "nvidia.com/gpu.deploy.device-plugin" (labels_of node) ≡ some (some "true")
unfolding lookup labels_of
given = refl

patched_first :
    (key : String) (labels old : Dict (Option String)) (v : Option String)
    → lookup key labels ≡ some v
    → lookup key (labels ++ old) ≡ some v
unfolding lookup
patched_first key [] old v h = cc
patched_first key ((k, w) ∷ labels) old v h = elim (Bool-cases (k == key)) [
  | inl e ↦ rw e (rw e at h)
  | inr e ↦ rw e (patched_first key labels old v (rw e at h))
]

abbrev label_of : Option (Option String) → Result (Option String)
label_of none = ok none
label_of (some v) = ok v

labels : Labels platform
labels = record {
  label = λ s name key. label_of (lookup key s.node_labels);
  patched = λ s name key ls v done h. ap label_of (patched_first key ls s.node_labels v h);
  patched_none = λ s name key ls failed. cc;
}

abbrev joined : Memory
joined = (handle_add platform handler node server).0

abbrev left : Memory
left = (handle_delete platform handler node joined).0

joining : handle_add platform handler node server ≡ (joined, ok tt)
unfolding handle_add get_node_topology_from_cm lookup
joining = refl

leaving : handle_delete platform handler node joined ≡ (left, ok tt)
unfolding handle_delete delete_node_topology_cm
leaving = refl

handle_delete-unlabelled_example :
    (labels.label joined "node" "nvidia.com/gpu.deploy.device-plugin" ≡ ok (some "true"))
    × ((labels.label left "node" "nvidia.com/gpu.deploy.device-plugin" ≡ ok none)
        ⊎ (labels.label left "node" "nvidia.com/gpu.deploy.device-plugin" ≡ err not_found))
handle_delete-unlabelled_example =
    handle_delete-unlabelled platform labels handler node "nvidia.com/gpu.deploy.device-plugin"
      (some "true") refl given server joined joined left joining leaving
