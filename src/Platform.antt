-- ===== src/Platform.antt =====
-- What the program calls and the repository does not implement: the Kubernetes API server, the YAML
-- library, float64 arithmetic, uuid and the environment. The records of objects have the fields
-- that the code reads. `Platform` is the parameter of every definition that makes such a call.
use fake_gpu_operator.Base.{ℕ, String, List, Option}
use fake_gpu_operator.Base.Dict.{Dict}
use fake_gpu_operator.Base.Result.{Result}
use fake_gpu_operator.Base.Int.{ℤ}
use fake_gpu_operator.Profile.Yaml.{Fields}
use fake_gpu_operator.Topology.{NodeTopology, ClusterTopology, ClusterConfig}

pub record ConfigMap : Type 0 where
  pub name : String
  pub namespace : String
  pub labels : Dict String
  pub annotations : Dict String
  pub contents : Dict String

-- `gpu_limit` is the value of limits["nvidia.com/gpu"], 0 if the limit is missing; the API server
-- admits no negative one. `claims` are the names under resources.claims.
pub record Container : Type 0 where
  pub name : String
  pub gpu_limit : ℕ
  pub claims : List String

-- `resource_claims` and `resource_claim_statuses` list the entries' `ResourceClaimName` pointers.
pub record Pod : Type 0 where
  pub name : String
  pub namespace : String
  pub uid : String
  pub labels : Dict String
  pub annotations : Dict String
  pub node_name : String
  pub phase : String
  pub containers : List Container
  pub resource_claims : List (Option String)
  pub resource_claim_statuses : List (Option String)

pub record Node : Type 0 where
  pub name : String
  pub labels : Dict String
  pub annotations : Dict String

-- One device request's allocation result.
pub record AllocationResult : Type 0 where
  pub request : String
  pub driver : String
  pub pool : String
  pub device : String

-- `allocation` is nil until the claim is allocated.
pub record ResourceClaim : Type 0 where
  pub allocation : Option (List AllocationResult)

pub record Platform : Type 1 where
  -- The state of the API server.
  pub State : Type 0
  -- ConfigMaps, by namespace and name.
  pub get_config_map : State → String → String → Result ConfigMap
  pub create_config_map : State → ConfigMap → State × Result (Unit {0})
  pub apply_config_map : State → ConfigMap → State × Result (Unit {0})
  pub delete_config_map : State → String → String → State × Result (Unit {0})
  -- ConfigMaps of a namespace under a label and its value; nodes that have a label.
  pub list_config_maps : State → String → String → String → Result (List ConfigMap)
  pub list_nodes : State → String → Result (List Node)
  -- Pods by namespace and name; those of a namespace on a node; a merge patch of one annotation.
  pub get_pod : State → String → String → Result Pod
  pub list_pods : State → String → String → Result (List Pod)
  pub annotate_pod : State → String → String → String → String → State × Result (Unit {0})
  -- A merge patch of a node's labels, where none removes a label.
  pub patch_node_labels : State → String → Dict (Option String) → State × Result (Unit {0})
  -- Resource claims by namespace and name; a pod group's spec.priorityClassName, if it has one, and
  -- none where the pod group or the field cannot be read.
  pub get_claim : State → String → String → Result ResourceClaim
  pub get_priority_class : State → String → String → Option (Option String)
  -- yaml.Marshal and yaml.Unmarshal at the types that the code uses.
  pub marshal_node_topology : NodeTopology → Result String
  pub unmarshal_node_topology : String → Result NodeTopology
  pub unmarshal_cluster_topology : String → Result ClusterTopology
  pub unmarshal_cluster_config : String → Result ClusterConfig
  pub unmarshal_fields : String → Result Fields
  -- float64: 1.0, strconv.ParseFloat at 32 bits, and int(float64(n) * f).
  pub Float : Type 0
  pub one : Float
  pub parse_float : String → Option Float
  pub times : ℤ → Float → ℤ
  -- The text of uuid.NewSHA1(uuid.Nil, name).
  pub uuid_of : String → String
  -- The environment, read by viper.
  pub topology_cm_name : String
  pub topology_cm_namespace : String
  pub resource_reservation_namespace : String
