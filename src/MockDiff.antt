-- ===== src/MockDiff.antt =====
-- internal/status-updater/controllers/mock/diff.go: what has to be created, updated and deleted for
-- the objects of the mock pools to be the desired ones.
pub mod Index
pub mod InSync
use fake_gpu_operator.Base.{
  String, Bool, true, false, not, ◌&&◌, ◌||◌, Option, none, some, List, [], ◌∷◌, ◌==◌,
  if◌then◌else◌,
}
use fake_gpu_operator.Base.Dict.{Dict, lookup, insert}

pub record Diff (O : Type 0) : Type 0 where
  pub to_create : List O
  pub to_update : List O
  pub to_delete : List O

-- DiffDaemonSets and DiffConfigMaps are one algorithm, over the name of an object, the test for an
-- update, and the copy of the ResourceVersion of what there is.
module _ {O : Type 0} (name : O → String) (needs_update : O → O → Bool) (stamp : O → O → O) where
  -- The loop that fills a map by name: the last object of a name stays.
  unfoldable pub by_name : List O → Dict O → Dict O
  unfolding insert
  by_name [] m = m
  by_name (o ∷ os) m = by_name os (insert (name o) o m)

  -- The objects that the loop over the desired ones creates, and those that it updates.
  unfoldable pub created : Dict O → Dict O → List O
  created actual [] = []
  created actual ((key, want) ∷ rest) = elim (lookup key actual) [
    | none ↦ want ∷ created actual rest
    | some have ↦ created actual rest
  ]

  unfoldable pub updated : Dict O → Dict O → List O
  updated actual [] = []
  updated actual ((key, want) ∷ rest) = elim (lookup key actual) [
    | none ↦ updated actual rest
    | some have ↦
        if needs_update want have
        then stamp want have ∷ updated actual rest
        else updated actual rest
  ]

  -- The loop over the actual objects.
  unfoldable pub deleted : Dict O → List O → List O
  deleted desired [] = []
  deleted desired (have ∷ rest) = elim (lookup (name have) desired) [
    | none ↦ have ∷ deleted desired rest
    | some want ↦ deleted desired rest
  ]

  unfoldable pub diff : List O → List O → Diff O
  unfolding by_name created updated deleted
  diff desired actual = record {
    to_create = created (by_name actual []) (by_name desired []);
    to_update = updated (by_name actual []) (by_name desired []);
    to_delete = deleted (by_name desired []) actual;
  }

-- `lifecycle` is a type of k8s.io/api, of which only the comparison is used.
pub record PodContainer (Lifecycle : Type 0) : Type 0 where
  pub image : String
  pub command : Option (List String)
  pub args : Option (List String)
  pub lifecycle : Lifecycle

pub record DaemonSet (Lifecycle : Type 0) : Type 0 where
  pub name : String
  pub resource_version : String
  pub containers : List (PodContainer Lifecycle)
  pub template_annotations : Dict String

-- reflect.DeepEqual on slices of strings, which tells nil from an empty slice.
abbrev pub same_texts : List String → List String → Bool
same_texts [] [] = true
same_texts (x ∷ xs) (y ∷ ys) = x == y && same_texts xs ys
same_texts _ _ = false

abbrev pub same_slice : Option (List String) → Option (List String) → Bool
same_slice none none = true
same_slice (some xs) (some ys) = same_texts xs ys
same_slice _ _ = false

abbrev pub text_at : String → Dict String → String
text_at key m = elim (lookup key m) [ none ↦ "" | some v ↦ v ]

module _ {Lifecycle : Type 0} (same_lifecycle : Lifecycle → Lifecycle → Bool)
    (config_hash_annotation : String) where
  unfoldable pub daemonset_needs_update : DaemonSet Lifecycle → DaemonSet Lifecycle → Bool
  daemonset_needs_update want have = elim want.containers [
    | [] ↦ true
    | w ∷ ws ↦ elim have.containers [
      | [] ↦ true
      | h ∷ hs ↦
          not (w.image == h.image)
          || not (same_slice w.command h.command)
          || not (same_slice w.args h.args)
          || not (same_lifecycle w.lifecycle h.lifecycle)
          || not (
              text_at config_hash_annotation want.template_annotations
              == text_at config_hash_annotation have.template_annotations)
    ]
  ]

  unfoldable pub diff_daemon_sets :
      List (DaemonSet Lifecycle) → List (DaemonSet Lifecycle) → Diff (DaemonSet Lifecycle)
  unfolding diff daemonset_needs_update
  diff_daemon_sets =
      diff (λ ds. ds.name) daemonset_needs_update
        (λ want have. record want { resource_version = have.resource_version })

pub record ManagedConfigMap : Type 0 where
  pub name : String
  pub resource_version : String
  pub contents : Dict String

unfoldable pub config_map_needs_update : ManagedConfigMap → ManagedConfigMap → Bool
config_map_needs_update want have =
    not (text_at "config.yaml" want.contents == text_at "config.yaml" have.contents)

unfoldable pub diff_config_maps :
    List ManagedConfigMap → List ManagedConfigMap → Diff ManagedConfigMap
unfolding diff config_map_needs_update
diff_config_maps =
    diff (λ cm. cm.name) config_map_needs_update
      (λ want have. record want { resource_version = have.resource_version })
