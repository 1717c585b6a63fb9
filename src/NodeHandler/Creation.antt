-- ===== src/NodeHandler/Creation.antt =====
-- The topology of a node that joins a pool.
use fake_gpu_operator.Base.{
  ℕ, ◌^◌, ◌<◌, String, ◌≡◌, refl, sym, ◌∙◌, some, List, [], ◌∷◌, map, length, All, range_from,
  length-map, length-range_from,
}
use fake_gpu_operator.Base.Int.{pos}
use fake_gpu_operator.Base.Dict.{lookup}
use fake_gpu_operator.Base.Result.{ok, ok-injective}
use fake_gpu_operator.Topology.{GpuDetails, NodeTopology, NodePoolTopology, NodePoolConfig}
use fake_gpu_operator.Topology.Normalize.{normalize_node_pool}
use fake_gpu_operator.Topology.RoundTrip.{declared, resolve-normalize}
use fake_gpu_operator.Platform.{Platform, Node}
use fake_gpu_operator.PodHandler.Gpus.{empty_status}
use fake_gpu_operator.NodeHandler.{
  NodeHandler, gpu_id, generate_gpu_details, initial_topology, topology_of,
}

-- Nobody holds the GPU and it has no usage.
abbrev pub IsFresh : GpuDetails → Type 0
IsFresh gpu = gpu.status ≡ empty_status

abbrev fresh : Platform → String → ℕ → GpuDetails
fresh p node_name i = record { id = gpu_id p node_name i; status = empty_status }

fresh-IsFresh :
    (p : Platform) (node_name : String) (is : List ℕ) → All IsFresh (map (fresh p node_name) is)
fresh-IsFresh p node_name [] = tt
fresh-IsFresh p node_name (i ∷ is) = (refl, fresh-IsFresh p node_name is)

-- A node that is labelled with a pool of the cluster's configuration, which was in the old format with
-- a count that is not negative and a memory below 2^43 MiB, is given the product and the memory that
-- were declared for the pool, and as many GPUs, each of them free and without usage; no call of the
-- API server is needed.
pub initial_topology_declared :
    (p : Platform) (h : NodeHandler) (node : Node) (s : p.State) (pool_name : String)
    (old : NodePoolTopology) (config : NodePoolConfig) (m n : ℕ)
    → lookup h.cluster_config.node_pool_label_key node.labels ≡ some pool_name
    → lookup pool_name h.cluster_config.node_pools ≡ some config
    → normalize_node_pool old ≡ ok config
    → old.gpu_memory ≡ pos m
    → old.gpu_count ≡ pos n
    → m < 2 ^ 43
    → (t : NodeTopology) × (initial_topology p h node s ≡ ok t)
      × (t.gpu_product ≡ old.gpu_product)
      × (t.gpu_memory ≡ old.gpu_memory)
      × (length t.gpus ≡ n)
      × All IsFresh t.gpus
unfolding initial_topology generate_gpu_details
initial_topology_declared p h node s pool_name old config m n labelled known normalized memory count
      fits =
    let (config', normalized', resolved) =
      resolve-normalize p s p.topology_cm_namespace old m n memory count fits in
    let same : config' ≡ config = ok-injective (sym normalized' ∙ normalized) in
    let gpus = map (fresh p node.name) (range_from 0 n) in
    (
      topology_of p h node (declared old) gpus,
      rw (labelled, known, ← same, resolved, count) refl,
      refl,
      refl,
      length-map (fresh p node.name) (range_from 0 n) ∙ length-range_from 0 n,
      fresh-IsFresh p node.name (range_from 0 n),
    )
