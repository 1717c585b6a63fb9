-- ===== src/Tests/Pods.antt =====
-- Pod events on a node with three GPUs, one of them taken.
use Prim.Native.Nat.{min}
use fake_gpu_operator.Base.{
  ◌+◌, String, false, ◌≡◌, refl, [], ◌∷◌, map, Option, none, some, Bool-cases, inl, inr, arith,
  ◌==◌, All,
}
use fake_gpu_operator.Base.Result.{ok, Returns, or_err, not_found, ok-injective}
use fake_gpu_operator.Base.Dict.{lookup}
use fake_gpu_operator.Topology.ConfigMaps.{get_node_topology_from_cm}
use fake_gpu_operator.Topology.{NodeTopology}
use fake_gpu_operator.Platform.{Platform, Pod}
use fake_gpu_operator.PodHandler.Gpus.{with_gpus}
use fake_gpu_operator.PodHandler.Dedicated.{
  is_already_allocated, dedicated_addition, handle_dedicated_gpu_pod_addition,
  handle_dedicated_gpu_pod_deletion,
}
use fake_gpu_operator.PodHandler.Allocation.{Grants, free_count, allocated_by}
use fake_gpu_operator.PodHandler.Release.{IsClean}
use fake_gpu_operator.PodHandler.Lifecycle.{
  addition_exact, deletion_after_addition, addition_idempotent,
}
use fake_gpu_operator.PodHandler.NoPanic.{IsResponsive}
use fake_gpu_operator.PodHandler.Events.{events_return, StoresUsageMaps}
use fake_gpu_operator.PodHandler.{handle_add, handle_update, handle_delete}
use fake_gpu_operator.Tests.Memory.{memory, gpu, topology, container, gpu_pod, server}

abbrev before : NodeTopology
before = topology (gpu "a" "" ∷ gpu "b" "other" ∷ gpu "c" "" ∷ [])

abbrev platform : Platform
platform = memory before

abbrev pod : Pod
pod = gpu_pod "trainer" 1

added : NodeTopology
unfolding handle_dedicated_gpu_pod_addition dedicated_addition
added = elim (handle_dedicated_gpu_pod_addition platform pod before server).1 [
  | ok t ↦ t
  | _ ↦ before
]

addition_runs : handle_dedicated_gpu_pod_addition platform pod before server ≡ (server, ok added)
unfolding added
addition_runs = refl

new_pod : is_already_allocated pod (container 1) before ≡ false
unfolding is_already_allocated
new_pod = refl

before-IsClean : All IsClean before.gpus
before-IsClean = ((λ e. refl), ((λ e. cc), ((λ e. refl), tt)))

added_ids : map (λ g. g.status.allocated_by.pod) added.gpus ≡ "trainer" ∷ "other" ∷ "" ∷ []
unfolding added
added_ids = refl

addition_exact_example :
    Grants pod "main" before.gpus added.gpus
    × (free_count added.gpus + min 1 2 ≡ 2)
    × (added ≡ with_gpus before added.gpus)
addition_exact_example =
    addition_exact platform pod (container 1) refl before added server server refl new_pod
      addition_runs

deletion_after_addition_example :
    (t'' : NodeTopology) × (handle_dedicated_gpu_pod_deletion pod added ≡ ok t'')
    × (map allocated_by t''.gpus ≡ map allocated_by before.gpus)
deletion_after_addition_example =
    deletion_after_addition platform pod (container 1) refl before added server server
      before-IsClean new_pod addition_runs

addition_idempotent_example :
    handle_dedicated_gpu_pod_addition platform pod added server ≡ (server, ok added)
addition_idempotent_example =
    addition_idempotent platform pod (container 1) refl before added server server refl new_pod
      (omega arith) addition_runs server

or_err-Returns : {A : Type 0} (o : Option A) → Returns (or_err o not_found)
or_err-Returns none = tt
or_err-Returns (some a) = tt

known_document : (text : String) → Returns (platform.unmarshal_node_topology text)
known_document text = elim (Bool-cases (text == "topology")) [ inl e ↦ rw e tt | inr e ↦ rw e tt ]

responsive : IsResponsive platform
responsive = record {
  config_map_read = λ s ns name. or_err-Returns (lookup name s.config_maps);
  config_map_applied = λ s cm. tt;
  pod_annotated = λ s ns name key v. tt;
  pods_listed = λ s ns node. tt;
  pods_named = λ s ns node pods e. rw (← ok-injective e) tt;
  claim_read = λ s ns name. or_err-Returns (lookup name s.claims);
  topology_marshalled = λ t. tt;
  topology_unmarshalled = known_document;
}

stored : StoresUsageMaps platform pod server
unfolding get_node_topology_from_cm lookup
stored t e = rw (← ok-injective e) ((λ q. cc), ((λ q. cc), ((λ q. cc), tt)))

events_return_example :
    Returns (handle_add platform pod server).1
    × Returns (handle_update platform pod server).1
    × Returns (handle_delete platform pod server).1
events_return_example = events_return platform responsive pod (container 1) server refl stored
