-- ===== src/Lib.antt =====
-- Verification library of fake-gpu-operator, which makes the nodes of a Kubernetes cluster look as if
-- they had GPUs.
--
-- The status updater (internal/status-updater) writes, and the exporters and plugins read, one
-- ConfigMap for each node, which holds the node's topology: its GPUs, who holds each, and how busy each
-- pod makes it. A node that joins a pool is given a topology, a pod's events change it, and a restart
-- prunes it. The status exporter (internal/status-exporter) derives the NUMA zones from the same data.
--
-- Files, and the code that they model:
--
--   Base, Base/*       Results of Go functions (a value, an error or a panic), calls that change the
--                      API server's state, association lists for maps, integers, ASCII text.
--   Topology, Topology/ConfigMaps, Normalize, Resolve
--                      internal/common/topology: types.go, kubernetes.go, normalize.go, resolve.go.
--                      A type keeps its name, a function's name is in lower case with underscores
--                      (ParseAndNormalizeTopology is parse_and_normalize_topology).
--   Profile, Profile/Yaml, Merge, Paths
--                      internal/common/profile/profile.go, over YAML documents as trees of fields, and
--                      what a merged profile holds under a key and at a path.
--   Platform           What the code calls and this repository does not hold: the API server, YAML
--                      at the types in use, float64, name-based UUIDs and the environment, as a record
--                      that every definition with such a call takes. A theorem that relies on what
--                      one of them does names that as a hypothesis.
--   PodHandler, PodHandler/Util, Usage, Gpus, Reservation, Dedicated, Shared, Dra
--                      internal/status-updater/handlers/pod and internal/status-updater/util/util.go,
--                      one file for each kind of pod; PodHandler itself is handler.go, which calls the
--                      kinds in turn on the topology that was read and writes the result.
--   PodHandler/Allocation, Release, Lifecycle, Safety, NoPanic, Kinds, DraKind, Events,
--   PodHandler/Claims, ClaimNames
--                      Proofs about them.
--   NodeHandler        internal/status-updater/handlers/node.
--   NodeController     The pruning in internal/status-updater/controllers/node/controller.go.
--   NumaZones, NumaZones/*
--                      internal/status-exporter/export/numazones/layout.go; Sums is about the sums of
--                      declared counts.
--   KubeClient         internal/common/kubeclient/kubeclient.go.
--   MigFaker           internal/migfaker/migfaker.go and types.go.
--   NodeLabels         internal/status-exporter/export/labels/labels_builder.go.
--   ResourceSlices     internal/kwok-dra-plugin/handlers/resourceslice/handler.go.
--   MockDiff, MockDiff/Index, InSync
--                      internal/status-updater/controllers/mock/diff.go.
--   DomainPlugin, DomainPlugin/Files, Calls, Driver
--                      internal/compute-domain-dra-plugin: state.go, cdi.go, checkpoint.go,
--                      nvcdi_device.go, discovery.go and driver.go, over the files of a node.
--   DomainPlugin/Valid, Steps, Refines, Restore, Again, Batches
--                      The invariant of its checkpoint, its state machine, and that the calls refine
--                      it.
--   DomainController, DomainController/Calls
--                      internal/compute-domain-controller/computedomain_controller.go.
--   DomainController/Laws, Nodes, Templates, Settled, Deletion
--                      What it relies on of the API server, the nodes of a status, and what a
--                      reconciliation leaves.
--   GpuUsage, GpuUsage/Rates, Bounds
--                      internal/common/topology/podGpuUsageStatusMap.go and range.go.
--   GpuMetrics         internal/status-exporter/export/metrics: the gauges of a node.
--   GpuPlugin, GpuPlugin/Prepare
--                      internal/dra-plugin-gpu: state.go and cdi.go. A configuration is known by its
--                      place in the list, where the source has a pointer of its own for each.
--   GpuPlugin/Exact, Edits, Last, Configured
--                      Proofs about it.
--   KwokDomains        internal/kwok-compute-domain-dra-plugin/controllers/node/reconciler.go.
--   Tests, Tests/*     A platform in memory, and the theorems at concrete inputs.
--
-- State and errors. A function that only reads the API server takes its state and returns a Result; one
-- that writes is a function from a state to a state and a Result. A handler that changes a topology
-- through a pointer returns the changed one; where it fails, the topology is dropped by its caller, as
-- in the source. A nil map is none, a write to it and an index out of range are panic. Errors are names
-- for the places that make them, less their text.
--
-- Parameters. A component that does not share the status updater's platform takes a record of its own
-- for what it calls: DomainPlugin.Files.Node, DomainController.DomainApi, GpuPlugin.GpuPlatform,
-- KwokDomains.NodeApi, ResourceSlices.SliceApi and GpuUsage.Sampler. What a theorem relies on of them is a
-- record of laws (KeepsCheckpoint, KeepsObjects, Deletes, KeepsSlices, Samples, Labels).
--
-- Concurrency. The DRA plugins hold a lock during a call, so their calls follow each other. The theorems
-- on reconciliations are about an API server that no other client writes to in between.
--
-- Numbers. Go's int is an integer; the bytes of a memory size, the sums of a GPU's usages and those of
-- declared GPU counts wrap at 64 bits, where the source multiplies and adds them. The counts that are
-- lengths are natural numbers. A float64 is only what the platform makes of it.
--
-- Bounds and fuel. Every loop is structural recursion on the list or the number that the source runs
-- over. `decimal` prints with as much fuel as the number itself, which has fewer digits than that.
--
-- Order. Go iterates over a map in no fixed order; a map is a list here, and its order is the order of
-- one iteration. sort.Slice is an insertion sort, and promises no more than the order of the names.
--
-- Not modelled: the two KWOK objects of the node handler, which are manifests; informers, servers and
-- log lines; the pod resources lists and node resource topologies of the status exporter; the mock
-- controller but for its differences; the device plugins; the servers and the health checks of the two
-- DRA plugins; the start of the KWOK plugins; nvidia-smi and the entry points
-- in cmd.
pub mod Base
pub mod Profile
pub mod Topology
pub mod Platform
pub mod PodHandler
pub mod NumaZones
pub mod NodeHandler
pub mod NodeController
pub mod KubeClient
pub mod MigFaker
pub mod NodeLabels
pub mod ResourceSlices
pub mod MockDiff
pub mod DomainPlugin
pub mod DomainController
pub mod GpuUsage
pub mod GpuMetrics
pub mod GpuPlugin
pub mod KwokDomains
pub mod Tests
