-- ===== src/Topology/ConfigMaps.antt =====
-- internal/common/topology/kubernetes.go: a node's topology kept in a ConfigMap.
use Prim.Native.String.{◌++◌}
use fake_gpu_operator.Base.{String, Option, none, some, ◌∷◌, []}
use fake_gpu_operator.Base.Dict.{lookup, insert}
use fake_gpu_operator.Base.Result.{Result, ok, err, panic, or_err, missing_key}
use fake_gpu_operator.Base.Result
use fake_gpu_operator.Topology.{NodeTopology, ClusterTopology}
use fake_gpu_operator.Platform.{Platform, ConfigMap, Node}
use fake_gpu_operator.Base.Effect.{Eff, ◌>>=◌, lift}

abbrev pub cm_topology_key : String
cm_topology_key = "topology.yml"

abbrev pub annotation_kwok_node : String
annotation_kwok_node = "kwok.x-k8s.io/node"

abbrev pub label_node_topology : String
label_node_topology = "node-topology"

abbrev pub label_node_name : String
label_node_name = "node-name"

-- cm.Data[key], the empty string if it is missing.
abbrev pub value_or_empty : Option String → String
value_or_empty none = ""
value_or_empty (some v) = v

module _ (p : Platform) where
  unfoldable pub get_node_topology_cm_name : String → String
  get_node_topology_cm_name node_name = p.topology_cm_name ++ ("-" ++ node_name)

  unfoldable pub from_node_topology_cm : ConfigMap → Result NodeTopology
  from_node_topology_cm cm =
      p.unmarshal_node_topology (value_or_empty (lookup cm_topology_key cm.contents))

  unfoldable pub from_cluster_topology_cm : ConfigMap → Result ClusterTopology
  from_cluster_topology_cm cm =
      p.unmarshal_cluster_topology (value_or_empty (lookup cm_topology_key cm.contents))

  -- The ConfigMap and the apply configuration of the source hold the same object.
  unfoldable pub to_node_topology_cm : NodeTopology → String → Result ConfigMap
  unfolding get_node_topology_cm_name
  to_node_topology_cm node_topology node_name =
      Result.◌>>=◌ (p.marshal_node_topology node_topology) λ text. ok (record {
        name = get_node_topology_cm_name node_name;
        namespace = p.topology_cm_namespace;
        labels = (label_node_topology, "true") ∷ (label_node_name, node_name) ∷ [];
        annotations = [];
        contents = (cm_topology_key, text) ∷ [];
      })

  unfoldable pub get_node_topology_from_cm : String → p.State → Result NodeTopology
  unfolding get_node_topology_cm_name from_node_topology_cm
  get_node_topology_from_cm node_name s =
      Result.◌>>=◌
        (p.get_config_map s p.topology_cm_namespace (get_node_topology_cm_name node_name))
        from_node_topology_cm

  -- The kwok annotation of the node is copied to the ConfigMap.
  abbrev annotated : Option String → ConfigMap → ConfigMap
  annotated none cm = cm
  annotated (some value) cm = record cm {
    annotations = insert annotation_kwok_node value cm.annotations;
  }

  unfoldable pub create_node_topology_cm : NodeTopology → Node → Eff p.State (Unit {0})
  unfolding to_node_topology_cm
  create_node_topology_cm node_topology node = do
    cm ← lift (to_node_topology_cm node_topology node.name)
    λ s. p.create_config_map s (annotated (lookup annotation_kwok_node node.annotations) cm)

  unfoldable pub update_node_topology_cm : NodeTopology → String → Eff p.State (Unit {0})
  unfolding to_node_topology_cm
  update_node_topology_cm node_topology node_name = do
    cm ← lift (to_node_topology_cm node_topology node_name)
    λ s. p.apply_config_map s cm

  unfoldable pub delete_node_topology_cm : String → Eff p.State (Unit {0})
  unfolding get_node_topology_cm_name
  delete_node_topology_cm node_name s =
      p.delete_config_map s p.topology_cm_namespace (get_node_topology_cm_name node_name)

  unfoldable pub get_cluster_topology_from_cm : p.State → Result ClusterTopology
  unfolding from_cluster_topology_cm
  get_cluster_topology_from_cm s =
      Result.◌>>=◌ (p.get_config_map s p.topology_cm_namespace p.topology_cm_name)
        from_cluster_topology_cm
