-- ===== src/NodeHandler/Labels.antt =====
-- The labels that a node is given and that it loses again.
use fake_gpu_operator.Base.{
  String, ◌≡◌, refl, ap, ◌∙◌, subst, none, some, Option, false, arith, ◌⊎◌, Bool-cases, inl, inr,
  if◌then◌else◌,
}
use fake_gpu_operator.Base.Dict.{Dict, lookup}
use fake_gpu_operator.Base.Effect.{lift, >>=-eq-ok}
use fake_gpu_operator.Base.Result.{Result, ok, err, panic, not_found, err-ne-ok, panic-ne-ok}
use fake_gpu_operator.Topology.ConfigMaps.{delete_node_topology_cm}
use fake_gpu_operator.Platform.{Platform, Node}
use fake_gpu_operator.NodeHandler.{
  NodeHandler, is_fake_node, labels_of, no_labels, create_node_topology, label_node, unlabel_node,
  handle_add, handle_delete, ignore_not_found,
}

-- A label of a node, as the API server has it: not_found where the node is gone. A merge patch sets and
-- removes the labels that it names; it is refused where the node is gone.
pub record Labels (p : Platform) : Type 0 where
  pub label : p.State → String → String → Result (Option String)
  pub patched :
      (s : p.State) (node key : String) (labels : Dict (Option String)) (v : Option String)
      → (p.patch_node_labels s node labels).1 ≡ ok tt
      → lookup key labels ≡ some v
      → label (p.patch_node_labels s node labels).0 node key ≡ ok v
  pub patched_none :
      (s : p.State) (node key : String) (labels : Dict (Option String))
      → (p.patch_node_labels s node labels).1 ≡ err not_found
      → label (p.patch_node_labels s node labels).0 node key ≡ err not_found

-- Each label that a node is given when it joins is among those that are removed when it leaves.
labels_of-no_labels :
    (node : Node) (key : String) (v : Option String)
    → lookup key (labels_of node) ≡ some v
    → lookup key no_labels ≡ some none
unfolding labels_of lookup
labels_of-no_labels node key v h = elim (Bool-cases (is_fake_node node)) [
  | inl e ↦ let h' = rw e at h in ground arith
  | inr e ↦ let h' = rw e at h in ground arith
]

module _ (p : Platform) (k : Labels p) (h : NodeHandler) (node : Node) (key : String)
    (v : Option String) (enabled : h.disable_labeling ≡ false)
    (given : lookup key (labels_of node) ≡ some v) where
  label_node-labelled :
      (s s' : p.State) → label_node p h node s ≡ (s', ok tt) → k.label s' node.name key ≡ ok v
  unfolding label_node
  label_node-labelled s s' e =
      subst (λ y. k.label y node.name key ≡ ok v) (ap (λ q. q.0) e)
        (k.patched s node.name key (labels_of node) v (ap (λ q. q.1) e) given)

  unlabel_node-unlabelled :
      (s s' : p.State)
      → unlabel_node p h node s ≡ (s', ok tt)
      → (k.label s' node.name key ≡ ok none) ⊎ (k.label s' node.name key ≡ err not_found)
  unfolding unlabel_node
  unlabel_node-unlabelled s s' e = go (p.patch_node_labels s node.name no_labels) refl e
    where
      go :
          (q : p.State × Result (Unit {0}))
          → p.patch_node_labels s node.name no_labels ≡ q
          → ◌≡◌ {A = p.State × Result (Unit {0})} (q.0, ignore_not_found q.1) (s', ok tt)
          → (k.label s' node.name key ≡ ok none) ⊎ (k.label s' node.name key ≡ err not_found)
      go (x, ok _) c r =
          let at : (p.patch_node_labels s node.name no_labels).0 ≡ s' =
            ap (λ q. q.0) c ∙ ap (λ q. q.0) r in
          inl (
            subst (λ y. k.label y node.name key ≡ ok none) at
              (k.patched s node.name key no_labels none (ap (λ q. q.1) c)
                (labels_of-no_labels node key v given)))
      go (x, err not_found) c r =
          let at : (p.patch_node_labels s node.name no_labels).0 ≡ s' =
            ap (λ q. q.0) c ∙ ap (λ q. q.0) r in
          inr (
            subst (λ y. k.label y node.name key ≡ err not_found) at
              (k.patched_none s node.name key no_labels (ap (λ q. q.1) c)))
      go (x, err e') c r = absurd (err-ne-ok (ap (λ q. q.1) r))
      go (x, panic) c r = absurd (panic-ne-ok (ap (λ q. q.1) r))

  -- Where labelling is enabled and the API server merges the labels of a patch, a label that a node is
  -- to have has its value after the node's addition succeeded; and after the node's deletion succeeded
  -- it is gone, or the node itself is.
  pub handle_delete-unlabelled :
      (s s' t t' : p.State)
      → handle_add p h node s ≡ (s', ok tt)
      → handle_delete p h node t ≡ (t', ok tt)
      → (k.label s' node.name key ≡ ok v)
        × ((k.label t' node.name key ≡ ok none) ⊎ (k.label t' node.name key ≡ err not_found))
  unfolding handle_add handle_delete
  handle_delete-unlabelled s s' t t' joined left =
      let (s1, u, e1, h1) =
        >>=-eq-ok (create_node_topology p h node)
          (λ _. if h.disable_labeling then lift (ok tt) else label_node p h node) s joined in
      let (t1, u1, e2, h2) =
        >>=-eq-ok
          (λ s. let (s', r) = delete_node_topology_cm p node.name s in (s', ignore_not_found r))
          (λ _. if h.disable_labeling then lift (ok tt) else unlabel_node p h node) t left in
      (
        label_node-labelled s1 s' (rw enabled at h1),
        unlabel_node-unlabelled t1 t' (rw enabled at h2),
      )
