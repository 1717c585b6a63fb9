-- ===== src/Tests/Mock.antt =====
-- The ConfigMap of a mock pool that exists already, and one whose configuration changed.
use fake_gpu_operator.Base.{String, ◌≡◌, refl, ◌↔◌, [], ◌∷◌}
use fake_gpu_operator.Base.Dict.{lookup, insert}
use fake_gpu_operator.MockDiff.{ManagedConfigMap, config_map_needs_update, diff, diff_config_maps}
use fake_gpu_operator.MockDiff.InSync.{IsInSync, nothing, diff-IsInSync}

abbrev pool_cm : String → String → ManagedConfigMap
pool_cm version config = record {
  name = "pool";
  resource_version = version;
  contents = ("config.yaml", config) ∷ [];
}

abbrev stamp : ManagedConfigMap → ManagedConfigMap → ManagedConfigMap
stamp want have = record want { resource_version = have.resource_version }

changed :
    diff_config_maps (pool_cm "" "b" ∷ []) (pool_cm "7" "a" ∷ [])
    ≡ record { to_create = []; to_update = pool_cm "7" "b" ∷ []; to_delete = [] }
unfolding diff_config_maps lookup insert
changed = refl

diff-IsInSync_example :
    (diff (λ cm. cm.name) config_map_needs_update stamp (pool_cm "" "a" ∷ []) (pool_cm "7" "a" ∷ [])
      ≡ nothing (λ cm. cm.name) config_map_needs_update stamp)
    ↔ IsInSync
        (λ cm. cm.name)
        config_map_needs_update
        stamp
        (pool_cm "" "a" ∷ [])
        (pool_cm "7" "a" ∷ [])
diff-IsInSync_example =
    diff-IsInSync (λ cm. cm.name) config_map_needs_update stamp (pool_cm "" "a" ∷ [])
      (pool_cm "7" "a" ∷ [])
