-- ===== src/Tests/Labels.antt =====
-- Node labels, and the MIG devices of a node with a GPU of 40 GB.
use fake_gpu_operator.Base.{String, ◌≡◌, refl, List, [], ◌∷◌, map, none, some}
use fake_gpu_operator.Base.Dict.{lookup, insert}
use fake_gpu_operator.Base.Int.{pos}
use fake_gpu_operator.Base.Text.{codes, contains}
use fake_gpu_operator.Base.Result.{ok}
use fake_gpu_operator.KubeClient.{KubeApi, KubeNode, set_node_labels}
use fake_gpu_operator.KubeClient.Labels.{KeepsNode, label, overridden, set_node_labels-label}
use fake_gpu_operator.MigFaker.{
  MigDevice, MigDeviceMappingInfo, MigPlatform, mapping_info, map_devices,
  mig_instance_name_to_gpu_instance_id,
}
use fake_gpu_operator.MigFaker.Instances.{
  mig_instance_name_to_gpu_instance_id-injective, map_devices-selected,
}
use fake_gpu_operator.NodeLabels.{sanitize_label_value}
use fake_gpu_operator.NodeLabels.Sanitize.{IsLabelValue, sanitize_label_value-IsLabelValue}

-- The server keeps one node.
abbrev kube : KubeApi
kube = record { State = KubeNode; get_node = λ s. ok s; update_node = λ s node. (node, ok tt) }

abbrev keeps : KeepsNode kube
keeps = record { updated = λ s node done. refl }

abbrev node : KubeNode
node = record { labels = some (("zone", "a") ∷ []); annotations = none }

abbrev relabelled : KubeNode
relabelled = record { labels = some (("zone", "b") ∷ []); annotations = none }

relabelling : set_node_labels kube (("zone", "b") ∷ []) node ≡ (relabelled, ok tt)
unfolding set_node_labels insert
relabelling = refl

set_node_labels-label_example :
    (node' : KubeNode) × (kube.get_node relabelled ≡ ok node')
    × (label "zone" node' ≡ overridden "zone" (("zone", "b") ∷ []) (label "zone" node))
    × (node'.annotations ≡ node.annotations)
set_node_labels-label_example =
    set_node_labels-label kube keeps node relabelled node (("zone", "a") ∷ []) (("zone", "b") ∷ [])
      "zone" refl refl relabelling

small_id : mig_instance_name_to_gpu_instance_id "A100-SXM4-40GB" "1g.5gb" ≡ ok 19
unfolding mig_instance_name_to_gpu_instance_id lookup contains
small_id = refl

mig_instance_name_to_gpu_instance_id-injective_example : ◌≡◌ {A = String} "1g.5gb" "1g.5gb"
mig_instance_name_to_gpu_instance_id-injective_example =
    mig_instance_name_to_gpu_instance_id-injective "A100-SXM4-40GB" "1g.5gb" "1g.5gb" 19 small_id
      small_id

abbrev mig : MigPlatform
mig = record { kube = kube; generate_uuid = λ s. (s, "uuid"); encode_mapping = λ m. "mapping" }

abbrev small : MigDevice
small = record { name = "1g.5gb"; position = pos 3; size = pos 1 }

abbrev infos : List MigDeviceMappingInfo
infos = mapping_info small 19 "uuid" ∷ []

mapped : map_devices mig "A100-SXM4-40GB" (small ∷ []) node ≡ (node, ok infos)
unfolding map_devices lookup contains
mapped = refl

map_devices-selected_example :
    (map (λ i. i.position) infos ≡ map (λ d. d.position) (small ∷ []))
    × (map (λ i. ok i.gpu_instance_id) infos
        ≡ map (λ d. mig_instance_name_to_gpu_instance_id "A100-SXM4-40GB" d.name) (small ∷ []))
map_devices-selected_example =
    map_devices-selected mig "A100-SXM4-40GB" (small ∷ []) node node infos mapped

sanitized : sanitize_label_value (codes "(Tesla T4)") ≡ codes "Tesla-T4"
unfolding sanitize_label_value
sanitized = refl

sanitize_label_value-IsLabelValue_example : IsLabelValue (sanitize_label_value (codes "(Tesla T4)"))
sanitize_label_value-IsLabelValue_example = sanitize_label_value-IsLabelValue (codes "(Tesla T4)")
