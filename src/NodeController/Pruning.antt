-- ===== src/NodeController/Pruning.antt =====
-- What pruning does to a GPU's holder, and to a ConfigMap that no node is behind.
use fake_gpu_operator.Base.{
  String, Bool, true, false, ◌≡◌, ◌≢◌, refl, sym, ap, subst, Option, none, some, if◌then◌else◌,
  List, [], ◌∷◌, any, Bool-cases, inl, inr, eq_iff,
}
use fake_gpu_operator.Base.Dict.{lookup}
use fake_gpu_operator.Base.Result.{
  Result, Error, ok, err, panic, not_found, api_failure, ok-injective, or_err, >>=-eq-ok, err-ne-ok,
  panic-ne-ok,
}
use fake_gpu_operator.Base.Result
use fake_gpu_operator.Base.Effect.{Eff, ◌>>=◌, lift, reads}
use fake_gpu_operator.Base.Effect
use fake_gpu_operator.Topology.{ContainerDetails, GpuDetails, NodeTopology}
use fake_gpu_operator.Topology.ConfigMaps.{
  label_node_name, get_node_topology_cm_name, from_node_topology_cm, to_node_topology_cm,
  update_node_topology_cm,
}
use fake_gpu_operator.Platform.{Platform, ConfigMap, Pod}
use fake_gpu_operator.PodHandler.Gpus.{is_free, empty_status, with_gpus}
use fake_gpu_operator.NodeController.{
  is_pod_exist, reset_gpu, prune_gpus, pruned_topology, delete_orphan, prune_topology_config_map,
}

module _ (p : Platform) (s : p.State) where
  -- The holder that is left, by the answer to the lookup of the pod; none if pruning has to fail.
  abbrev pub holder_left : Result Pod → ContainerDetails → Option ContainerDetails
  holder_left (ok pod) holder = some holder
  holder_left (err not_found) holder = some empty_status.allocated_by
  holder_left (err e) holder = none
  holder_left panic holder = none

  -- One GPU before and after: the same id, no usage, and the holder only if it exists.
  abbrev pub Pruned : GpuDetails → GpuDetails → Type 0
  Pruned g g' =
      (g'.id ≡ g.id)
      × (g'.status.pod_gpu_usage_status ≡ some [])
      × (holder_left (p.get_pod s g.status.allocated_by.namespace g.status.allocated_by.pod)
            g.status.allocated_by
          ≡ some g'.status.allocated_by)

  abbrev pub AllPruned : List GpuDetails → List GpuDetails → Type 0
  AllPruned [] [] = Unit
  AllPruned (g ∷ gs) (g' ∷ gs') = Pruned g g' × AllPruned gs gs'
  AllPruned _ _ = ⊥

  holder_left-exists :
      (answer : Result Pod) (holder : ContainerDetails) (exists : Bool)
      → ◌≡◌ {A = Result Bool}
          (elim answer [
            | ok pod ↦ ok true
            | err not_found ↦ ok false
            | err e ↦ err e
            | panic ↦ panic
          ])
          (ok exists)
      → holder_left answer holder ≡ some (if exists then holder else empty_status.allocated_by)
  holder_left-exists (ok pod) holder exists h = rw (← ok-injective h) refl
  holder_left-exists (err not_found) holder exists h = rw (← ok-injective h) refl
  holder_left-exists (err _) holder exists h = cc
  holder_left-exists panic holder exists h = cc

  exists-Pruned :
      (g : GpuDetails) (exists : Bool)
      → is_pod_exist p s g.status.allocated_by.pod g.status.allocated_by.namespace ≡ ok exists
      → Pruned g (reset_gpu p exists g)
  unfolding is_pod_exist
  exists-Pruned g exists h = (refl, refl, holder_left-exists _ g.status.allocated_by exists h)

  -- Pruning a topology that succeeds empties every GPU's usage, keeps the holders that exist as pods
  -- and clears those that do not.
  pub prune_gpus-AllPruned :
      (gs gs' : List GpuDetails) → prune_gpus p s gs ≡ ok gs' → AllPruned gs gs'
  unfolding prune_gpus
  prune_gpus-AllPruned [] gs' h = subst (AllPruned []) (ok-injective h) tt
  prune_gpus-AllPruned (g ∷ gs) gs' h =
      let (exists, e1, h1) =
        Result.>>=-eq-ok
          (is_pod_exist p s g.status.allocated_by.pod g.status.allocated_by.namespace)
          (λ exists. Result.◌>>=◌ (prune_gpus p s gs) λ rest. ok (reset_gpu p exists g ∷ rest)) h in
      let (rest, e2, h2) =
        Result.>>=-eq-ok (prune_gpus p s gs) (λ rest. ok (reset_gpu p exists g ∷ rest)) h1 in
      subst (AllPruned (g ∷ gs)) (ok-injective h2)
        (exists-Pruned g exists e1, prune_gpus-AllPruned gs rest e2)

  free_refused :
      ((ns : String) → p.get_pod s ns "" ≡ err api_failure)
      → (g : GpuDetails) → is_free g ≡ true
      → (exists : Bool)
      → is_pod_exist p s g.status.allocated_by.pod g.status.allocated_by.namespace ≢ ok exists
  unfolding is_pod_exist
  free_refused refuses g free exists h =
      cc (rw ((eq_iff _ _).0 free, is_pod_exist, refuses g.status.allocated_by.namespace) at h)

  -- A client that refuses an empty pod name makes pruning fail on every topology with a free GPU.
  pub prune_gpus-refused :
      ((ns : String) → p.get_pod s ns "" ≡ err api_failure)
      → (gs gs' : List GpuDetails) → any is_free gs ≡ true
      → prune_gpus p s gs ≢ ok gs'
  unfolding prune_gpus
  prune_gpus-refused refuses [] gs' free h = cc
  prune_gpus-refused refuses (g ∷ gs) gs' free h =
      let (exists, e1, h1) =
        Result.>>=-eq-ok
          (is_pod_exist p s g.status.allocated_by.pod g.status.allocated_by.namespace)
          (λ exists. Result.◌>>=◌ (prune_gpus p s gs) λ rest. ok (reset_gpu p exists g ∷ rest)) h in
      let (rest, e2, h2) =
        Result.>>=-eq-ok (prune_gpus p s gs) (λ rest. ok (reset_gpu p exists g ∷ rest)) h1 in
      elim (Bool-cases (is_free g)) [
        | inl here ↦ free_refused refuses g here exists e1
        | inr there ↦ prune_gpus-refused refuses gs rest (rw there at free) e2
      ]

-- After a server-side apply that succeeded a ConfigMap of the name is there; what else it holds is up
-- to the other managers of its fields.
pub record ReadsBack (p : Platform) : Type 0 where
  pub applied :
      (s : p.State) (cm : ConfigMap)
      → (p.apply_config_map s cm).1 ≡ ok tt
      → (found : ConfigMap) × (p.get_config_map (p.apply_config_map s cm).0 cm.namespace cm.name
          ≡ ok found)

module _ (p : Platform) (r : ReadsBack p) (cm : ConfigMap) (node_name : String)
    (labelled : lookup label_node_name cm.labels ≡ some node_name) where
  pruned-named :
      (s : p.State) (pruned : NodeTopology × String)
      → pruned_topology p cm s ≡ ok pruned
      → pruned.1 ≡ node_name
  unfolding pruned_topology
  pruned-named s pruned h =
      let (t, e1, h1) =
        Result.>>=-eq-ok (from_node_topology_cm p cm)
          (λ t. Result.◌>>=◌ (prune_gpus p s t.gpus) λ gpus.
            Result.◌>>=◌ (or_err (lookup label_node_name cm.labels) Result.no_node_label)
              λ name. ok (with_gpus t gpus, name))
          h in
      let (gpus, e2, h2) =
        Result.>>=-eq-ok (prune_gpus p s t.gpus)
          (λ gpus.
            Result.◌>>=◌ (or_err (lookup label_node_name cm.labels) Result.no_node_label)
              λ name. ok (with_gpus t gpus, name))
          h1 in
      sym (ap (λ q. q.1) (ok-injective (rw labelled at h2)))

  to_cm-named :
      (t : NodeTopology) (name : String) (made : ConfigMap)
      → to_node_topology_cm p t name ≡ ok made
      → (made.namespace ≡ p.topology_cm_namespace) × (made.name ≡ get_node_topology_cm_name p name)
  unfolding to_node_topology_cm
  to_cm-named t name made h =
      let (text, e1, h1) = Result.>>=-eq-ok (p.marshal_node_topology t) _ h in
      (sym (ap (λ c. c.namespace) (ok-injective h1)), sym (ap (λ c. c.name) (ok-injective h1)))

  update-stores :
      (t : NodeTopology) (name : String) (s s' : p.State)
      → update_node_topology_cm p t name s ≡ (s', ok tt)
      → (cm' : ConfigMap) × (p.get_config_map s' p.topology_cm_namespace
            (get_node_topology_cm_name p name)
          ≡ ok cm')
  unfolding update_node_topology_cm
  update-stores t name s s' h =
      let (s1, made, e1, h1) =
        Effect.>>=-eq-ok (lift (to_node_topology_cm p t name)) (λ c s. p.apply_config_map s c) s
          h in
      let (in_ns, in_name) = to_cm-named t name made (ap (λ q. q.1) e1) in
      let (found, back) = r.applied s1 made (ap (λ q. q.1) h1) in
      (found, rw (← in_ns, ← in_name, ← ap (λ q. q.0) h1) back)

  -- After a pruning that succeeded the API server holds a ConfigMap of the node's name, also where no
  -- node is behind it and it was to be deleted: it was deleted, and then applied again. The API server
  -- has a ConfigMap of the name after an apply that succeeded.
  pub prune-keeps_config_map :
      (valid : Bool) (s s' : p.State)
      → prune_topology_config_map p cm valid s ≡ (s', ok tt)
      → (cm' : ConfigMap) × (p.get_config_map s' p.topology_cm_namespace
            (get_node_topology_cm_name p node_name)
          ≡ ok cm')
  unfolding prune_topology_config_map
  prune-keeps_config_map valid s s' h =
      let (s1, u, e1, h1) =
        Effect.>>=-eq-ok (delete_orphan p cm valid)
          (λ _.
            reads (pruned_topology p cm) >>= λ pruned. update_node_topology_cm p pruned.0 pruned.1)
          s h in
      let (s2, pruned, e2, h2) =
        Effect.>>=-eq-ok (reads (pruned_topology p cm))
          (λ pruned. update_node_topology_cm p pruned.0 pruned.1) s1 h1 in
      let named = pruned-named s1 pruned (ap (λ q. q.1) e2) in
      subst
        (λ name.
          (cm' : ConfigMap) × (p.get_config_map s' p.topology_cm_namespace
              (get_node_topology_cm_name p name)
            ≡ ok cm'))
        named (update-stores pruned.0 pruned.1 s2 s' h2)
