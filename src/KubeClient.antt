-- ===== src/KubeClient.antt =====
-- internal/common/kubeclient/kubeclient.go: how a component reads and writes its own node.
pub mod Labels
use fake_gpu_operator.Base.{String, Option, none, some, List, [], ◌∷◌}
use fake_gpu_operator.Base.Dict.{Dict, insert}
use fake_gpu_operator.Base.Result.{Result, ok, panic, ◌>>=◌}
use fake_gpu_operator.Base.Effect.{Eff, lift, reads}
use fake_gpu_operator.Base.Effect

-- The maps of a node's metadata; none is a nil map.
pub record KubeNode : Type 0 where
  pub labels : Option (Dict String)
  pub annotations : Option (Dict String)

-- The API server, asked about the node that the environment names.
pub record KubeApi : Type 1 where
  pub State : Type 0
  pub get_node : State → Result KubeNode
  pub update_node : State → KubeNode → State × Result (Unit {0})

-- The loop that writes each entry; a write to a nil map panics.
unfoldable pub write_entries : Dict String → Option (Dict String) → Result (Option (Dict String))
write_entries [] m = ok m
write_entries ((key, value) ∷ rest) none = panic
write_entries ((key, value) ∷ rest) (some m) = write_entries rest (some (insert key value m))

module _ (k : KubeApi) where
  unfoldable pub set_node_labels : Dict String → Eff k.State (Unit {0})
  unfolding write_entries
  set_node_labels entries = Effect.◌>>=◌ (reads k.get_node) λ node.
      Effect.◌>>=◌ (lift (write_entries entries node.labels))
        λ written s. k.update_node s (record node { labels = written })

  unfoldable pub set_node_annotations : Dict String → Eff k.State (Unit {0})
  unfolding write_entries
  set_node_annotations entries = Effect.◌>>=◌ (reads k.get_node) λ node.
      Effect.◌>>=◌ (lift (write_entries entries node.annotations))
        λ written s. k.update_node s (record node { annotations = written })

  unfoldable pub get_node_labels : k.State → Result (Option (Dict String))
  get_node_labels s = k.get_node s >>= λ node. ok node.labels
