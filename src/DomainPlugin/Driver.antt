-- ===== src/DomainPlugin/Driver.antt =====
-- internal/compute-domain-dra-plugin/driver.go: the calls of the kubelet, for many claims, and
-- discovery.go: the channels of a node.
use fake_gpu_operator.Base.{ℕ, String, List, [], ◌∷◌, map, range_from}
use fake_gpu_operator.Base.Dict.{Dict, insert}
use fake_gpu_operator.Base.Result.{Result, ok, err, panic}
use fake_gpu_operator.Base.Effect.{Eff}
use fake_gpu_operator.DomainPlugin.{DomainClaim, PreparedDevice, device_name_for_channel}
use fake_gpu_operator.DomainPlugin.Files.{Node}
use fake_gpu_operator.DomainPlugin.Calls.{prepare, unprepare}

abbrev pub max_channel_id : ℕ
max_channel_id = 2048

-- The names of the devices, which are the keys of the map.
unfoldable pub enumerate_compute_domain_devices : List String
enumerate_compute_domain_devices = map device_name_for_channel (range_from 0 max_channel_id)

-- What the kubelet is told of a device.
pub record KubeletDevice : Type 0 where
  pub requests : List String
  pub pool_name : String
  pub device_name : String
  pub cdi_device_ids : List String

abbrev pub kubelet_device : PreparedDevice → KubeletDevice
kubelet_device device = record {
  requests = device.request_names;
  pool_name = device.pool_name;
  device_name = device.device_name;
  cdi_device_ids = device.cdi_device_ids;
}

-- PrepareResult: the devices of a claim, or its error.
abbrev pub prepare_result : Result (List PreparedDevice) → Result (List KubeletDevice)
prepare_result (ok devices) = ok (map kubelet_device devices)
prepare_result (err e) = err e
prepare_result panic = panic

module _ {S A D : Type 0} where
  -- An error is an entry of the result like a value; a panic ends the process.
  abbrev pub enter : Result A → (Result A → Eff S D) → Eff S D
  enter panic next s = (s, panic)
  enter (ok a) next s = next (ok a) s
  enter (err e) next s = next (err e) s

module _ (n : Node) where
  unfoldable pub prepare_resource_claims :
      List String
      → List DomainClaim
      → Dict (Result (List KubeletDevice))
      → Eff n.State (Dict (Result (List KubeletDevice)))
  prepare_resource_claims allocatable [] result s = (s, ok result)
  prepare_resource_claims allocatable (claim ∷ claims) result s =
      let (s', r) = prepare n allocatable claim s in
      enter r
        (λ r'.
          prepare_resource_claims allocatable claims (insert claim.uid (prepare_result r') result))
        s'

  unfoldable pub unprepare_resource_claims :
      List String → Dict (Result (Unit {0})) → Eff n.State (Dict (Result (Unit {0})))
  unprepare_resource_claims [] result s = (s, ok result)
  unprepare_resource_claims (uid ∷ uids) result s =
      let (s', r) = unprepare n uid s in
      enter r (λ r'. unprepare_resource_claims uids (insert uid r' result)) s'
