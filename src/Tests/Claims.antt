-- ===== src/Tests/Claims.antt =====
-- A DRA pod whose claim was given the free one of two GPUs.
use fake_gpu_operator.Base.{String, ◌||◌, ◌==◌, false, ◌≡◌, refl, [], ◌∷◌, some, map}
use fake_gpu_operator.Base.Dict.{lookup}
use fake_gpu_operator.Base.Text.{equal_fold}
use fake_gpu_operator.Base.Result.{ok}
use fake_gpu_operator.Topology.{NodeTopology}
use fake_gpu_operator.Platform.{Platform, Pod}
use fake_gpu_operator.PodHandler.Gpus.{with_gpus}
use fake_gpu_operator.PodHandler.Dra.{
  contains_name, handle_dra_gpu_pod_addition, get_container_with_claim,
  get_resource_claim_names_from_pod,
}
use fake_gpu_operator.PodHandler.Allocation.{Grants}
use fake_gpu_operator.PodHandler.Claims.{dra_addition-Grants}
use fake_gpu_operator.PodHandler.ClaimNames.{
  AreClaimNames, mentions, get_resource_claim_names_from_pod-AreClaimNames,
}
use fake_gpu_operator.Tests.Memory.{Memory, memory, gpu, topology, gpu_pod, server}

abbrev before : NodeTopology
before = topology (gpu "GPU-A" "" ∷ gpu "GPU-B" "other" ∷ [])

abbrev platform : Platform
platform = memory before

abbrev pod : Pod
pod = record (gpu_pod "inference" 0) { resource_claims = some "claim" ∷ [] }

abbrev claimed : Memory
claimed = record server {
  claims =
      (
        "claim",
        record {
          allocation = some (
              record { request = "gpu"; driver = "gpu.nvidia.com"; pool = "node"; device = "gpu-a" }
              ∷ record {
                request = "gpu";
                driver = "gpu.nvidia.com";
                pool = "node";
                device = "gpu-b";
              }
              ∷ []);
        },
      )
      ∷ [];
}

added : NodeTopology
unfolding handle_dra_gpu_pod_addition
added = elim (handle_dra_gpu_pod_addition platform pod before claimed) [ ok t ↦ t | _ ↦ before ]

addition_runs : handle_dra_gpu_pod_addition platform pod before claimed ≡ ok added
unfolding added lookup
addition_runs = refl

holders : map (λ g. g.status.allocated_by.pod) added.gpus ≡ "inference" ∷ "other" ∷ []
unfolding added lookup equal_fold
holders = refl

dra_addition-Grants_example :
    Grants pod (get_container_with_claim pod) before.gpus added.gpus
    × (added ≡ with_gpus before added.gpus)
dra_addition-Grants_example =
    dra_addition-Grants platform pod before added claimed refl addition_runs

get_resource_claim_names_from_pod-AreClaimNames_example :
    AreClaimNames (get_resource_claim_names_from_pod pod)
    × ((x : String)
        → (x == "") ≡ false
        → contains_name x (get_resource_claim_names_from_pod pod)
          ≡ (mentions x pod.resource_claim_statuses || mentions x pod.resource_claims))
get_resource_claim_names_from_pod-AreClaimNames_example =
    get_resource_claim_names_from_pod-AreClaimNames pod
