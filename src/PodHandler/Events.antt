-- ===== src/PodHandler/Events.antt =====
-- An event of a pod with a container never panics: the three handlers, from those of each kind of
-- pod.
use fake_gpu_operator.Base.{◌≡◌, refl, All}
use fake_gpu_operator.Base.Result.{Result, ok, err, panic, Returns, Returns-bind}
use fake_gpu_operator.Base.Effect.{Eff, ◌>>=◌, ◌>>◌, lift, reads}
use fake_gpu_operator.Base.Effect
use fake_gpu_operator.Topology.{GpuDetails, NodeTopology}
use fake_gpu_operator.Topology.ConfigMaps.{
  get_node_topology_from_cm, to_node_topology_cm, update_node_topology_cm,
}
use fake_gpu_operator.Platform.{Platform, Pod, Container}
use fake_gpu_operator.PodHandler.Util.{first_container}
use fake_gpu_operator.PodHandler.Dedicated.{
  handle_dedicated_gpu_pod_addition, handle_dedicated_gpu_pod_update,
  handle_dedicated_gpu_pod_deletion,
}
use fake_gpu_operator.PodHandler.Shared.{
  handle_shared_gpu_pod_addition, handle_shared_gpu_pod_update, handle_shared_gpu_pod_deletion,
}
use fake_gpu_operator.PodHandler.Dra.{
  handle_dra_gpu_pod_addition, handle_dra_gpu_pod_update, handle_dra_gpu_pod_deletion,
}
use fake_gpu_operator.PodHandler.Allocation.{IsInitialized}
use fake_gpu_operator.PodHandler.Lifecycle.{handle_deletion_lem}
use fake_gpu_operator.PodHandler.NoPanic.{IsResponsive, FineAt, Fine}
use fake_gpu_operator.PodHandler.Kinds.{
  dedicated_addition_handler-Fine, dedicated_update-Fine, shared_addition-Fine, shared_update-Fine,
  shared_deletion-FineAt, everywhere,
}
use fake_gpu_operator.PodHandler.DraKind.{dra_addition-Fine, dra_update-Fine}
use fake_gpu_operator.PodHandler.{handle_add, handle_update, handle_delete}

-- A stage that was fine hands on a topology of which `P` holds; the rest of the event returns.
fine_then :
    {S : Type 0} (P : GpuDetails → Type 0) (m : Eff S NodeTopology)
    (f : NodeTopology → Eff S (Unit {0})) (s : S)
    → FineAt P (m s).1
    → ((t : NodeTopology) (s' : S) → All P t.gpus → Returns (f t s').1)
    → Returns ((m >>= f) s).1
fine_then {S} P m f s h k = go (m s) h
  where
    go : (q : S × Result NodeTopology) → FineAt P q.1 → Returns (Effect.continue q.1 f q.0).1
    go (s', ok t) a = k t s' a
    go (s', err e) a = tt
    go (s', panic) a = a

-- What the ConfigMap of the pod's node holds has usage maps.
abbrev pub StoresUsageMaps : (p : Platform) (pod : Pod) (s : p.State) → Type 0
StoresUsageMaps p pod s =
    (t : NodeTopology)
    → get_node_topology_from_cm p pod.node_name s ≡ ok t
    → All IsInitialized t.gpus

module _ (p : Platform) (r : IsResponsive p) (pod : Pod) (c : Container) (s : p.State) where
  read-Returns : Returns (get_node_topology_from_cm p pod.node_name s)
  unfolding get_node_topology_from_cm
  read-Returns =
      Returns-bind (p.get_config_map s p.topology_cm_namespace _) _ (r.config_map_read s _ _)
        λ cm e. r.topology_unmarshalled _

  update-Returns :
      (t : NodeTopology) (s' : p.State) → Returns (update_node_topology_cm p t pod.node_name s').1
  unfolding update_node_topology_cm
  update-Returns t s' =
      Effect.Returns-bind (lift (to_node_topology_cm p t pod.node_name)) _ s'
        (Returns-bind (p.marshal_node_topology t) _ (r.topology_marshalled t) λ text e. tt)
        (λ s'' cm e. r.config_map_applied s'' cm)

  read-Fine : StoresUsageMaps p pod s → Fine (get_node_topology_from_cm p pod.node_name s)
  read-Fine h = go (get_node_topology_from_cm p pod.node_name s) read-Returns h
    where
      go :
          (q : Result NodeTopology)
          → Returns q
          → ((t : NodeTopology) → q ≡ ok t → All IsInitialized t.gpus)
          → Fine q
      go (ok t) a b = b t refl
      go (err e) a b = tt
      go panic a b = a

  dedicated_deletion-FineAt :
      first_container pod ≡ ok c
      → (t : NodeTopology) → FineAt (λ g. Unit) (handle_dedicated_gpu_pod_deletion pod t)
  dedicated_deletion-FineAt first t = rw (handle_deletion_lem p pod c first t) (everywhere _)

  -- An event of a pod that has a container never panics, if the API server answers and the node's
  -- stored topology has no nil usage map: an addition, an update and a deletion each return, with
  -- or without an error.
  pub events_return :
      first_container pod ≡ ok c
      → StoresUsageMaps p pod s
      → Returns (handle_add p pod s).1
        × Returns (handle_update p pod s).1
        × Returns (handle_delete p pod s).1
  unfolding handle_add handle_update handle_delete
  events_return first stored = (
    fine_then IsInitialized (reads (get_node_topology_from_cm p pod.node_name)) _ s
        (read-Fine stored)
        (λ t s1 i1.
          fine_then IsInitialized (handle_dedicated_gpu_pod_addition p pod t) _ s1
            (dedicated_addition_handler-Fine p r pod c first t s1 i1)
            (λ t2 s2 i2.
              fine_then IsInitialized (reads (handle_shared_gpu_pod_addition p pod t2)) _ s2
                (shared_addition-Fine p r pod t2 s2 i2)
                (λ t3 s3 i3.
                  fine_then IsInitialized (reads (handle_dra_gpu_pod_addition p pod t3)) _ s3
                    (dra_addition-Fine p r pod s3 t3 i3) (λ t4 s4 i4. update-Returns t4 s4)))),
    fine_then IsInitialized (reads (get_node_topology_from_cm p pod.node_name)) _ s
        (read-Fine stored)
        (λ t s1 i1.
          fine_then IsInitialized (reads (handle_dedicated_gpu_pod_update p pod t)) _ s1
            (dedicated_update-Fine p r pod c first t s1 i1)
            (λ t2 s2 i2.
              fine_then IsInitialized (reads (handle_shared_gpu_pod_update p pod t2)) _ s2
                (shared_update-Fine p r pod t2 s2 i2)
                (λ t3 s3 i3.
                  fine_then IsInitialized (reads (handle_dra_gpu_pod_update p pod t3)) _ s3
                    (dra_update-Fine p r pod s3 t3 i3) (λ t4 s4 i4. update-Returns t4 s4)))),
    fine_then IsInitialized (reads (get_node_topology_from_cm p pod.node_name)) _ s
        (read-Fine stored)
        (λ t s1 i1.
          fine_then (λ g. Unit) (lift (handle_dedicated_gpu_pod_deletion pod t)) _ s1
            (dedicated_deletion-FineAt first t)
            (λ t2 s2 i2.
              fine_then (λ g. Unit) (reads (handle_shared_gpu_pod_deletion p pod t2)) _ s2
                (shared_deletion-FineAt p r pod t2 s2)
                (λ t3 s3 i3. update-Returns (handle_dra_gpu_pod_deletion pod t3) s3))),
  )
