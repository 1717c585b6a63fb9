-- ===== src/DomainPlugin.antt =====
-- internal/compute-domain-dra-plugin: the compute-domain claims that a node has prepared, in the
-- checkpoint file of the plugin (state.go, checkpoint.go), with their CDI specs (cdi.go) and device
-- nodes (nvcdi_device.go). The calls that change files are in DomainPlugin/Calls.
pub mod Files
pub mod Calls
pub mod Valid
pub mod Steps
pub mod Refines
pub mod Restore
pub mod Again
pub mod Driver
pub mod Batches
use Prim.Native.String
use fake_gpu_operator.Base.{
  ℕ, String, Bool, true, false, Option, none, some, List, [], ◌∷◌, ◌++◌, map, ◌==◌, if◌then◌else◌,
}
use fake_gpu_operator.Base.Dict.{Dict, lookup, insert, erase}
use fake_gpu_operator.Base.Text.{decimal}
use fake_gpu_operator.Profile.Yaml.{Fields, get, str}

-- The device nodes and the environment that a CDI device adds to a container.
pub record DeviceNode : Type 0 where
  pub path : String
  pub node_type : String
  pub file_mode : ℕ
  pub major : ℕ
  pub minor : ℕ

pub record ContainerEdits : Type 0 where
  pub env : List String
  pub device_nodes : List DeviceNode

pub record PreparedDevice : Type 0 where
  pub request_names : List String
  pub pool_name : String
  pub device_name : String
  pub cdi_device_ids : List String
  pub container_edits : Option ContainerEdits

pub record DomainInfo : Type 0 where
  pub domain_id : String
  pub claims : List String
  pub created_at : ℕ

-- ComputeDomainCheckpointV1. A claim that is prepared has an entry; no list of devices is nil, as an
-- empty one is refused before it is stored.
pub record Checkpoint : Type 0 where
  pub prepared_claims : Dict (List PreparedDevice)
  pub domains : Dict DomainInfo

abbrev pub new_checkpoint : Checkpoint
new_checkpoint = record { prepared_claims = []; domains = [] }

-- The opaque configuration of a claim: its driver and its raw JSON.
pub record OpaqueConfig : Type 0 where
  pub driver : String
  pub parameters : String

-- `requests` are the device classes of the requests, none where a request is not an exact one;
-- `configs` has none for a configuration that is not opaque.
pub record DomainClaim : Type 0 where
  pub uid : String
  pub namespace : String
  pub requests : List (Option String)
  pub configs : List (Option OpaqueConfig)

abbrev pub compute_domain_driver_name : String
compute_domain_driver_name = "compute-domain.nvidia.com"

unfoldable pub get_device_class_name : List (Option String) → String
get_device_class_name [] = ""
get_device_class_name (none ∷ rest) = get_device_class_name rest
get_device_class_name (some device_class ∷ rest) = device_class

-- params[key].(string)
abbrev pub text_param : String → Fields → Option String
text_param key params = elim (get key params) [ some (str s) ↦ some s | _ ↦ none ]

abbrev pub params_of : Fields → String × Bool
params_of params = (
  elim (text_param "domainID" params) [ none ↦ "" | some id ↦ id ],
  elim (text_param "allocationMode" params) [ none ↦ false | some mode ↦ mode == "All" ],
)

-- The first configuration of the driver that can be read; `unmarshal` is json.Unmarshal.
unfoldable pub extract_compute_domain_params :
    (String → Option Fields) → List (Option OpaqueConfig) → String × Bool
extract_compute_domain_params unmarshal [] = ("", false)
extract_compute_domain_params unmarshal (none ∷ rest) = extract_compute_domain_params unmarshal rest
extract_compute_domain_params unmarshal (some config ∷ rest) =
    let later = extract_compute_domain_params unmarshal rest in
    if config.driver == compute_domain_driver_name
    then elim (unmarshal config.parameters) as (λ _. String × Bool) [
      | none ↦ later
      | some params ↦ params_of params
    ]
    else later

-- The domain's entry with one more claim, or a new one at the time `now`.
unfoldable pub get_or_create_domain : Dict DomainInfo → String → String → ℕ → Dict DomainInfo
get_or_create_domain domains id uid now =
    insert id
      (elim (lookup id domains) [
        | some info ↦ record info { claims = info.claims ++ uid ∷ [] }
        | none ↦ record { domain_id = id; claims = uid ∷ []; created_at = now }
      ])
      domains

-- append(claims[:i], claims[i+1:]...) at the first `i` that holds the claim.
unfoldable pub remove_claim : String → List String → List String
remove_claim uid [] = []
remove_claim uid (c ∷ cs) = let rest = remove_claim uid cs in if c == uid then cs else c ∷ rest

abbrev pub has_claim : String → List String → Bool
has_claim uid [] = false
has_claim uid (c ∷ cs) = if c == uid then true else has_claim uid cs

-- A domain that is left with these claims: one without any is deleted.
abbrev pub kept : String → DomainInfo → List String → Dict DomainInfo → Dict DomainInfo
kept id info [] others = others
kept id info (c ∷ cs) others = (id, record info { claims = c ∷ cs }) ∷ others

-- The loop over the domains; one without the claim is left alone.
unfoldable pub release_domains : String → Dict DomainInfo → Dict DomainInfo
unfolding remove_claim
release_domains uid [] = []
release_domains uid ((id, info) ∷ rest) =
    let others = release_domains uid rest in
    if has_claim uid info.claims
    then kept id info (remove_claim uid info.claims) others
    else (id, info) ∷ others

-- What Unprepare writes for a claim that is prepared.
unfoldable pub unprepared : String → Checkpoint → Checkpoint
unfolding release_domains
unprepared uid cp = record {
  prepared_claims = erase uid cp.prepared_claims;
  domains = release_domains uid cp.domains;
}

-- What Prepare writes for a claim that was not.
unfoldable pub prepared : String → String → ℕ → List PreparedDevice → Checkpoint → Checkpoint
unfolding get_or_create_domain
prepared uid domain_id now devices cp = record {
  prepared_claims = insert uid devices cp.prepared_claims;
  domains = get_or_create_domain cp.domains domain_id uid now;
}

unfoldable pub device_name_for_channel : ℕ → String
device_name_for_channel channel = String.◌++◌ "channel-" (decimal channel)

abbrev pub channel_device : String → Option ContainerEdits → String → PreparedDevice
channel_device namespace edits name = record {
  request_names = "channel" ∷ [];
  pool_name = namespace;
  device_name = name;
  cdi_device_ids = [];
  container_edits = edits;
}

-- The devices of a claim: every allocatable one, or the channel 0.
unfoldable pub devices_of_claim :
    List String → Bool → String → Option ContainerEdits → List PreparedDevice
unfolding device_name_for_channel
devices_of_claim allocatable all namespace edits =
    if all
    then map (channel_device namespace edits) allocatable
    else channel_device namespace edits (device_name_for_channel 0) ∷ []
