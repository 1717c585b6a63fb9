-- ===== src/Topology.antt =====
-- internal/common/topology/types.go: the cluster's configuration and the state of a node's GPUs.
-- Field names are the source's. A Go map that may be nil is an `Option` of a `Dict`.
pub mod ConfigMaps
pub mod Normalize
pub mod Resolve
pub mod RoundTrip
use fake_gpu_operator.Base.{ℕ, String, Bool, List, Option}
use fake_gpu_operator.Base.Dict.{Dict}
use fake_gpu_operator.Base.Int.{ℤ}
use fake_gpu_operator.Profile.Yaml.{Fields}

pub record GenericDevice : Type 0 where
  pub name : String
  pub count : ℤ

pub record NodePoolTopology : Type 0 where
  pub gpu_count : ℤ
  pub gpu_memory : ℤ
  pub gpu_product : String
  pub other_devices : List GenericDevice

pub record ClusterTopology : Type 0 where
  pub node_pools : Dict NodePoolTopology
  pub node_pool_label_key : String
  pub mig_strategy : String

pub record NumaDistances : Type 0 where
  pub self : ℤ
  pub remote : ℤ

pub record NumaConfig : Type 0 where
  pub zones : ℤ
  pub gpus_per_zone : List ℤ
  pub topology_manager_policy : String
  pub topology_manager_scope : String
  pub cpu_per_zone : String
  pub mem_per_zone : String
  pub distances : Option NumaDistances

-- `overrides` is a nil map or a map.
pub record GpuConfig : Type 0 where
  pub backend : String
  pub profile : String
  pub overrides : Option Fields

pub record NodePoolConfig : Type 0 where
  pub gpu : GpuConfig
  pub numa : Option NumaConfig
  pub resources : List (Dict ℤ)

pub record GpuOperatorConfig : Type 0 where
  pub version : String
  pub values : Option Fields

pub record ClusterConfig : Type 0 where
  pub node_pool_label_key : String
  pub mig_strategy : String
  pub node_pools : Dict NodePoolConfig
  pub gpu_operator : Option GpuOperatorConfig

pub record Range : Type 0 where
  pub min : ℤ
  pub max : ℤ

pub record GpuUsageStatus : Type 0 where
  pub utilization : Range
  pub fb_used : ℤ
  pub use_knative_utilization : Bool

-- Keyed by pod UID.
abbrev pub PodGpuUsageStatusMap : Type 0
PodGpuUsageStatusMap = Dict GpuUsageStatus

pub record ContainerDetails : Type 0 where
  pub namespace : String
  pub pod : String
  pub container : String

pub record GpuStatus : Type 0 where
  pub allocated_by : ContainerDetails
  pub pod_gpu_usage_status : Option PodGpuUsageStatusMap

pub record GpuDetails : Type 0 where
  pub id : String
  pub status : GpuStatus

pub record NodeTopology : Type 0 where
  pub gpu_memory : ℤ
  pub gpu_product : String
  pub driver_version : String
  pub cuda_version : String
  pub gpus : List GpuDetails
  pub mig_strategy : String
  pub other_devices : List GenericDevice
