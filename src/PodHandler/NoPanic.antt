-- ===== src/PodHandler/NoPanic.antt =====
-- From the loops to the handlers: an event of a pod with a container never panics.
use fake_gpu_operator.Base.{
  String, ◌≡◌, refl, Bool, false, inl, inr, List, [], ◌∷◌, none, some, find, All, ◌==◌,
  if◌then◌else◌, Bool-cases, Option-cases,
}
use fake_gpu_operator.Base.Text.{atoi}
use fake_gpu_operator.Base.Result.{Result, ok, err, panic, ok-injective, Returns, Returns-bind}
use fake_gpu_operator.Base.Result
use fake_gpu_operator.Topology.{GpuDetails, NodeTopology}
use fake_gpu_operator.Platform.{Platform, Pod, ConfigMap}
use fake_gpu_operator.PodHandler.Util.{value, annotation_gpu_idx, label_gpu_group}
use fake_gpu_operator.PodHandler.Gpus.{update_at, find_index, with_gpus}
use fake_gpu_operator.PodHandler.Shared.{
  name_of, or_else, get_node_reservation_pods, by_runai_gpu_annotation, by_runai_gpu_group_label,
  get_matching_reservation_pod_name, at_reservation_gpu,
}
use fake_gpu_operator.PodHandler.Allocation.{IsInitialized}
use fake_gpu_operator.PodHandler.Safety.{KeepsAll, AllOf, update_at-AllOf}

-- Every call of the platform returns, and the API server lists no pod without a name.
pub record IsResponsive (p : Platform) : Type 0 where
  pub config_map_read : (s : p.State) (ns name : String) → Returns (p.get_config_map s ns name)
  pub config_map_applied : (s : p.State) (cm : ConfigMap) → Returns (p.apply_config_map s cm).1
  pub pod_annotated :
      (s : p.State) (ns name key v : String) → Returns (p.annotate_pod s ns name key v).1
  pub pods_listed : (s : p.State) (ns node : String) → Returns (p.list_pods s ns node)
  pub pods_named :
      (s : p.State) (ns node : String) (pods : List Pod)
      → p.list_pods s ns node ≡ ok pods
      → All (λ pod. (pod.name == "") ≡ false) pods
  pub claim_read : (s : p.State) (ns name : String) → Returns (p.get_claim s ns name)
  pub topology_marshalled : (t : NodeTopology) → Returns (p.marshal_node_topology t)
  pub topology_unmarshalled : (text : String) → Returns (p.unmarshal_node_topology text)

-- A name that was found is not empty.
abbrev Named : Result String → Type 0
Named (ok name) = (name == "") ≡ false
Named (err e) = Unit
Named panic = ⊥

find-Named :
    (test : Pod → Bool) (pods : List Pod)
    → All (λ pod. (pod.name == "") ≡ false) pods
    → Named (name_of (find test pods))
find-Named test [] h = tt
find-Named test (pod ∷ pods) h = elim (Bool-cases (test pod)) [
  | inl e ↦ rw e h.0
  | inr e ↦ rw e (find-Named test pods h.1)
]

or_else-Named : (a b : Result String) → Named a → Named b → Named (or_else a b)
or_else-Named (ok n) b h k = h
or_else-Named (err e) (ok n) h k = k
or_else-Named (err e) (err e') h k = tt
or_else-Named (err e) panic h k = k
or_else-Named panic b h k = h

-- The topology of an event whose handler has returned so far.
abbrev pub FineAt : (GpuDetails → Type 0) → Result NodeTopology → Type 0
FineAt P (ok t) = All P t.gpus
FineAt P (err e) = Unit
FineAt P panic = ⊥

abbrev pub Fine : Result NodeTopology → Type 0
Fine r = FineAt IsInitialized r

pub at_index-FineAt :
    (P : GpuDetails → Type 0) (t : NodeTopology) (rs : Result (List GpuDetails))
    → AllOf P rs
    → FineAt P (Result.◌>>=◌ rs λ gpus. ok (with_gpus t gpus))
at_index-FineAt P t (ok gs) h = h
at_index-FineAt P t (err e) h = absurd h
at_index-FineAt P t panic h = absurd h

module _ (p : Platform) (r : IsResponsive p) (pod : Pod) (s : p.State) where
  listed-Named :
      (test : Pod → Bool)
      → Named (Result.◌>>=◌ (get_node_reservation_pods p pod s) λ pods. name_of (find test pods))
  unfolding get_node_reservation_pods
  listed-Named test =
      go (p.list_pods s p.resource_reservation_namespace pod.node_name) (r.pods_listed s _ _)
        (r.pods_named s _ _)
    where
      go :
          (q : Result (List Pod))
          → Returns q
          → ((pods : List Pod) → q ≡ ok pods → All (λ pod. (pod.name == "") ≡ false) pods)
          → Named (Result.◌>>=◌ q λ pods. name_of (find test pods))
      go (ok pods) a b = find-Named test pods (b pods refl)
      go (err e) a b = tt
      go panic a b = a

  annotation-Named : Named (by_runai_gpu_annotation p pod s)
  unfolding by_runai_gpu_annotation
  annotation-Named = elim (Bool-cases (value annotation_gpu_idx pod.annotations == "")) [
    | inl e ↦ rw e tt
    | inr e ↦ rw e (elim (Option-cases (atoi (value annotation_gpu_idx pod.annotations))) [
      | inl none_read ↦ rw none_read tt
      | inr (i, read) ↦ rw read (listed-Named _)
    ])
  ]

  group_label-Named : Named (by_runai_gpu_group_label p pod s)
  unfolding by_runai_gpu_group_label
  group_label-Named = elim (Bool-cases (value label_gpu_group pod.labels == "")) [
    | inl e ↦ rw e tt
    | inr e ↦ rw e (listed-Named _)
  ]

  matching-Named : Named (get_matching_reservation_pod_name p pod s)
  unfolding get_matching_reservation_pod_name
  matching-Named = or_else-Named _ _ annotation-Named group_label-Named

  pub at_reservation_gpu-FineAt :
      (P : GpuDetails → Type 0) (step : GpuDetails → Result GpuDetails)
      → KeepsAll P step
      → (t : NodeTopology) → All P t.gpus
      → FineAt P (at_reservation_gpu p pod step t s)
  unfolding at_reservation_gpu
  at_reservation_gpu-FineAt P step keeps t h =
      go (get_matching_reservation_pod_name p pod s) matching-Named
    where
      go :
          (q : Result String)
          → Named q
          → FineAt P (
              Result.◌>>=◌
                (Result.◌>>=◌ q λ name.
                  if name == ""
                  then ok none
                  else elim (find_index (λ gpu. gpu.status.allocated_by.pod == name) t.gpus) [
                    | none ↦ err Result.no_reservation_pod
                    | some i ↦ ok (some i)
                  ])
                λ idx. elim idx [
                  | none ↦ panic
                  | some i ↦ Result.◌>>=◌ (update_at i step t.gpus) λ gpus. ok (with_gpus t gpus)
                ])
      go (ok name) a =
          rw a
            (elim (Option-cases (find_index (λ gpu. gpu.status.allocated_by.pod == name) t.gpus)) [
              | inl e ↦ rw e tt
              | inr (i, e) ↦
                  rw e (at_index-FineAt P t _ (update_at-AllOf P step keeps _ t.gpus i e h))
            ])
      go (err e) a = tt
      go panic a = a
