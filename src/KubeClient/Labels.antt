-- ===== src/KubeClient/Labels.antt =====
-- What a node's labels are after they were set.
use fake_gpu_operator.Base.{
  String, ◌≡◌, refl, sym, ap, ◌∙◌, Option, none, some, [], ◌∷◌, ◌==◌, if◌then◌else◌,
}
use fake_gpu_operator.Base.Dict.{Dict, lookup, insert, lookup-insert}
use fake_gpu_operator.Base.Result.{ok}
use fake_gpu_operator.KubeClient.{KubeNode, KubeApi, write_entries, set_node_labels}

-- The value of a key once the entries were written one after the other.
abbrev pub overridden : String → Dict String → Option String → Option String
overridden key [] old = old
overridden key ((name, value) ∷ rest) old =
    overridden key rest (if name == key then some value else old)

-- A node's value for a key, none where it has no labels.
abbrev pub label : String → KubeNode → Option String
label key node = elim node.labels [ none ↦ none | some m ↦ lookup key m ]

write_entries-lookup :
    (key : String) (entries m : Dict String)
    → (written : Dict String) × (write_entries entries (some m) ≡ ok (some written))
      × (lookup key written ≡ overridden key entries (lookup key m))
unfolding write_entries
write_entries-lookup key [] m = (m, refl, refl)
write_entries-lookup key ((name, value) ∷ rest) m =
    let (written, run, looked) = write_entries-lookup key rest (insert name value m) in
    (written, run, looked ∙ ap (overridden key rest) (lookup-insert name key value m))

-- A node that was updated is read back.
pub record KeepsNode (k : KubeApi) : Type 0 where
  pub updated :
      (s : k.State) (node : KubeNode)
      → (k.update_node s node).1 ≡ ok tt
      → k.get_node (k.update_node s node).0 ≡ ok node

module _ (k : KubeApi) (keeps : KeepsNode k) where
  -- Setting labels on a node that has some writes each one, keeps every other label and leaves the
  -- annotations alone, if it succeeds and the API server keeps the node that it was given.
  pub set_node_labels-label :
      (s s' : k.State) (node : KubeNode) (m entries : Dict String) (key : String)
      → k.get_node s ≡ ok node
      → node.labels ≡ some m
      → set_node_labels k entries s ≡ (s', ok tt)
      → (node' : KubeNode) × (k.get_node s' ≡ ok node')
        × (label key node' ≡ overridden key entries (label key node))
        × (node'.annotations ≡ node.annotations)
  unfolding set_node_labels
  set_node_labels-label s s' node m entries key read has h =
      let (written, run, looked) = write_entries-lookup key entries m in
      let new : KubeNode = record node { labels = some written } in
      let update : k.update_node s new ≡ (s', ok tt) = rw (read, has, run) at h in
      (
        new,
        ap (λ q. k.get_node q.0) (sym update) ∙ keeps.updated s new (ap (λ q. q.1) update),
        rw has looked,
        refl,
      )
