-- ===== src/DomainController.antt =====
-- internal/compute-domain-controller/computedomain_controller.go: the objects of the controller, the
-- API server that it calls, and the status and the template that it wants. The reconciliation is in
-- DomainController/Calls.
pub mod Calls
pub mod Laws
pub mod Nodes
pub mod Templates
pub mod Settled
pub mod Deletion
use Prim.Native.String
use fake_gpu_operator.Base.{
  ℕ, String, Bool, true, false, not, ◌&&◌, ◌||◌, Option, none, some, List, [], ◌∷◌, map, any,
  length, nat_beq, ◌==◌, if◌then◌else◌,
}
use fake_gpu_operator.Base.Int.{ℤ, pos, eqb_ℤ, ltb_ℤ}
use fake_gpu_operator.Base.Dict.{Dict}
use fake_gpu_operator.Base.Text.{str_lt}
use fake_gpu_operator.Base.Result.{Result}
use fake_gpu_operator.Platform.{AllocationResult, ResourceClaim}

pub record Channel : Type 0 where
  pub allocation_mode : String
  pub template_name : String

pub record DomainNode : Type 0 where
  pub name : String
  pub status : String

pub record DomainStatus : Type 0 where
  pub status : String
  pub nodes : List DomainNode

-- `deleted` is whether the deletion timestamp is set.
pub record ComputeDomain : Type 0 where
  pub name : String
  pub namespace : String
  pub uid : String
  pub deleted : Bool
  pub finalizers : List String
  pub num_nodes : ℤ
  pub channel : Option Channel
  pub status : DomainStatus
  pub resource_version : String

pub record Owner : Type 0 where
  pub kind : String
  pub name : String

-- The one opaque configuration and the one request that a template of the controller has.
pub record TemplateSpec : Type 0 where
  pub claim_labels : Dict String
  pub driver : String
  pub parameters : String
  pub request : String
  pub allocation_mode : String
  pub count : ℕ
  pub device_class : String

pub record Template : Type 0 where
  pub name : String
  pub namespace : String
  pub labels : Dict String
  pub deleted : Bool
  pub finalizers : List String
  pub owners : List Owner
  pub spec : TemplateSpec

-- The client of controller-runtime, with its helpers for finalizers and owners, and the two constants
-- of the API of compute domains. An update writes the server's answer into the object.
pub record DomainApi : Type 1 where
  pub State : Type 0
  pub get_domain : State → String → String → Result ComputeDomain
  pub update_domain : State → ComputeDomain → State × Result ComputeDomain
  pub update_status : State → ComputeDomain → State × Result ComputeDomain
  pub get_template : State → String → String → Result Template
  pub create_template : State → Template → State × Result (Unit {0})
  pub update_template : State → Template → State × Result Template
  pub delete_template : State → Template → State × Result (Unit {0})
  -- The claims of a namespace with the label of a name and a value.
  pub list_claims : State → String → String → String → Result (List ResourceClaim)
  pub contains_finalizer : List String → String → Bool
  pub add_finalizer : List String → String → List String
  pub remove_finalizer : List String → String → List String
  pub set_controller_reference : ComputeDomain → Template → Result Template
  pub ready : String
  pub not_ready : String

abbrev pub compute_domain_finalizer : String
compute_domain_finalizer = "computedomain.resource.nvidia.com/finalizer"

abbrev pub compute_domain_claim_label : String
compute_domain_claim_label = "nvidia.com/computeDomain"

unfoldable pub is_owned_by : Template → ComputeDomain → Bool
is_owned_by template domain =
    any (λ owner. owner.name == domain.name && owner.kind == "ComputeDomain") template.owners

unfoldable pub get_allocation_mode : Option Channel → String
get_allocation_mode none = "Single"
get_allocation_mode (some channel) =
    if channel.allocation_mode == "" then "Single" else channel.allocation_mode

unfoldable pub template_name : ComputeDomain → String
template_name domain = elim domain.channel [
  | none ↦ domain.name
  | some channel ↦ channel.template_name
]

-- The raw JSON of the configuration, less the indentation of its lines.
unfoldable pub channel_parameters : ComputeDomain → String
unfolding get_allocation_mode
channel_parameters domain = String.◌++◌ "{\"allocationMode\": \"" (
    String.◌++◌ (get_allocation_mode domain.channel) (
      String.◌++◌ "\",\"apiVersion\": \"resource.nvidia.com/v1beta1\",\"domainID\": \""
        (String.◌++◌ domain.uid "\",\"kind\": \"ComputeDomainChannelConfig\"}")))

unfoldable pub template_of : ComputeDomain → String → String → String → Template
unfolding channel_parameters
template_of domain name device_class template_type = record {
  name = name;
  namespace = domain.namespace;
  labels =
      ("resource.nvidia.com/computeDomain", domain.name)
      ∷ ("resource.nvidia.com/computeDomainTarget", template_type)
      ∷ [];
  deleted = false;
  finalizers = compute_domain_finalizer ∷ [];
  owners = [];
  spec = record {
    claim_labels = (compute_domain_claim_label, domain.name) ∷ [];
    driver = "compute-domain.nvidia.com";
    parameters = channel_parameters domain;
    request = "channel";
    allocation_mode = "ExactCount";
    count = 1;
    device_class = device_class;
  };
}

-- The set of pools, in the order in which they are met.
abbrev pub add_pool : AllocationResult → List String → List String
add_pool result pools =
    if result.pool == "" || any (λ pool. pool == result.pool) pools
    then pools
    else result.pool ∷ pools

unfoldable pub pools_of_results : List AllocationResult → List String → List String
pools_of_results [] pools = pools
pools_of_results (result ∷ rest) pools = pools_of_results rest (add_pool result pools)

abbrev pub pools_of_claim : Option (List AllocationResult) → List String → List String
pools_of_claim none pools = pools
pools_of_claim (some results) pools = pools_of_results results pools

unfoldable pub pools_of_claims : List ResourceClaim → List String → List String
unfolding pools_of_results
pools_of_claims [] pools = pools
pools_of_claims (claim ∷ rest) pools = pools_of_claims rest (pools_of_claim claim.allocation pools)

-- sort.Slice by name.
unfoldable pub insert_node : DomainNode → List DomainNode → List DomainNode
insert_node node [] = node ∷ []
insert_node node (other ∷ others) =
    let rest = insert_node node others in
    if str_lt other.name node.name then other ∷ rest else node ∷ other ∷ others

unfoldable pub sort_nodes : List DomainNode → List DomainNode
unfolding insert_node
sort_nodes [] = []
sort_nodes (node ∷ nodes) = insert_node node (sort_nodes nodes)

-- The loop of statusEqual, which has checked the lengths before.
abbrev pub same_names : List DomainNode → List DomainNode → Bool
same_names [] new = true
same_names (node ∷ nodes) [] = false
same_names (node ∷ nodes) (other ∷ new) = node.name == other.name && same_names nodes new

unfoldable pub status_equal : DomainStatus → List DomainNode → String → Bool
status_equal current nodes status =
    current.status == status
    && (nat_beq (length current.nodes) (length nodes) && same_names current.nodes nodes)

module _ (api : DomainApi) where
  abbrev pub ready_node : String → DomainNode
  ready_node pool = record { name = pool; status = api.ready }

  -- The status that updateStatus wants.
  unfoldable pub nodes_of_claims : List ResourceClaim → List DomainNode
  unfolding pools_of_claims sort_nodes
  nodes_of_claims claims = sort_nodes (map ready_node (pools_of_claims claims []))

  unfoldable pub status_of_nodes : ℤ → List DomainNode → String
  status_of_nodes num_nodes nodes =
      if eqb_ℤ num_nodes (pos 0) || not (ltb_ℤ (pos (length nodes)) num_nodes)
      then api.ready
      else api.not_ready
