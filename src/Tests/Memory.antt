-- ===== src/Tests/Memory.antt =====
-- A platform in memory: an API server that keeps what is applied, and a YAML library that knows one
-- document.
use fake_gpu_operator.Base.{
  ℕ, String, Option, none, some, List, [], ◌∷◌, ◌++◌, if◌then◌else◌, ◌==◌, find, ◌&&◌,
}
use fake_gpu_operator.Base.Dict.{Dict, lookup, insert, erase}
use fake_gpu_operator.Base.Int.{pos}
use fake_gpu_operator.Base.Result.{ok, err, or_err, not_found, bad_yaml, api_failure}
use fake_gpu_operator.Profile.Yaml.{end}
use fake_gpu_operator.Topology.{GpuDetails, NodeTopology}
use fake_gpu_operator.ResourceSlices.{ResourceSlice}
use fake_gpu_operator.Platform.{Platform, ConfigMap, Pod, Container, ResourceClaim}

pub record Memory : Type 0 where
  pub config_maps : Dict ConfigMap
  pub pods : List Pod
  pub claims : Dict ResourceClaim
  pub annotated : List (String × String × String)
  pub slices : Dict ResourceSlice
  -- The labels of the one node that were set and, where none, removed.
  pub node_labels : Dict (Option String)

-- `stored` is what the one document holds.
abbrev pub memory : NodeTopology → Platform
memory stored = record {
  State = Memory;
  get_config_map = λ s ns name. or_err (lookup name s.config_maps) not_found;
  create_config_map = λ s cm. (record s { config_maps = insert cm.name cm s.config_maps }, ok tt);
  apply_config_map = λ s cm. (record s { config_maps = insert cm.name cm s.config_maps }, ok tt);
  delete_config_map = λ s ns name. (record s { config_maps = erase name s.config_maps }, ok tt);
  list_config_maps = λ s ns label v. ok [];
  list_nodes = λ s label. ok [];
  get_pod = λ s ns name.
      if name == ""
      then err api_failure
      else or_err (find (λ pod. pod.namespace == ns && pod.name == name) s.pods) not_found;
  list_pods = λ s ns node. ok [];
  annotate_pod = λ s ns name key v. (record s { annotated = (name, key, v) ∷ s.annotated }, ok tt);
  patch_node_labels = λ s node labels. (record s { node_labels = labels ++ s.node_labels }, ok tt);
  get_claim = λ s ns name. or_err (lookup name s.claims) not_found;
  get_priority_class = λ s ns name. some none;
  marshal_node_topology = λ t. ok "topology";
  unmarshal_node_topology = λ text. if text == "topology" then ok stored else err bad_yaml;
  unmarshal_cluster_topology = λ text. err bad_yaml;
  unmarshal_cluster_config = λ text. err bad_yaml;
  unmarshal_fields = λ text. ok end;
  Float = ℕ;
  one = 1;
  parse_float = λ text. none;
  times = λ n f. n;
  uuid_of = λ name. name;
  topology_cm_name = "topology";
  topology_cm_namespace = "gpu-operator";
  resource_reservation_namespace = "runai-reservation";
}

abbrev pub gpu : String → String → GpuDetails
gpu id pod = record {
  id = id;
  status = record {
    allocated_by = record {
      namespace = if pod == "" then "" else "default";
      pod = pod;
      container = if pod == "" then "" else "main";
    };
    pod_gpu_usage_status = some [];
  };
}

abbrev pub topology : List GpuDetails → NodeTopology
topology gpus = record {
  gpu_memory = pos 16384;
  gpu_product = "Tesla-T4";
  driver_version = "";
  cuda_version = "";
  gpus = gpus;
  mig_strategy = "mixed";
  other_devices = [];
}

abbrev pub container : ℕ → Container
container n = record { name = "main"; gpu_limit = n; claims = [] }

abbrev pub gpu_pod : String → ℕ → Pod
gpu_pod name n = record {
  name = name;
  namespace = "default";
  uid = "uid";
  labels = [];
  annotations = [];
  node_name = "node";
  phase = "Running";
  containers = container n ∷ [];
  resource_claims = [];
  resource_claim_statuses = [];
}

abbrev pub topology_cm : ConfigMap
topology_cm = record {
  name = "topology-node";
  namespace = "gpu-operator";
  labels = ("node-topology", "true") ∷ ("node-name", "node") ∷ [];
  annotations = [];
  contents = ("topology.yml", "topology") ∷ [];
}

abbrev pub server : Memory
server = record {
  config_maps = ("topology-node", topology_cm) ∷ [];
  pods = [];
  claims = [];
  annotated = [];
  slices = [];
  node_labels = [];
}
