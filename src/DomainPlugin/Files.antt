-- ===== src/DomainPlugin/Files.antt =====
-- What the compute-domain plugin calls of its node: the checkpoint manager of the kubelet, the CDI
-- cache, the file system, JSON and the clock; and the symbolic links of nvcdi_device.go.

use fake_gpu_operator.Base.{ℕ, String, Bool, true, false, Option, List, [], ◌∷◌, ◌==◌}
use fake_gpu_operator.Base.Result.{Result, ok, err, panic, not_found}
use fake_gpu_operator.Base.Effect.{Eff, ◌>>=◌, ◌>>◌, lift}
use fake_gpu_operator.Profile.Yaml.{Fields}
use fake_gpu_operator.DomainPlugin.{Checkpoint, ContainerEdits, DeviceNode, DomainInfo}

pub record CdiDevice : Type 0 where
  pub name : String
  pub container_edits : ContainerEdits

pub record CdiSpec : Type 0 where
  pub version : String
  pub kind : String
  pub devices : List CdiDevice

pub record Node : Type 1 where
  -- The state of the node's files.
  pub State : Type 0
  -- The checkpoint manager: the names of the checkpoints, the one of the plugin, whose V1 is none if
  -- it is nil, and the write of it.
  pub list_checkpoints : State → Result (List String)
  pub get_checkpoint : State → Result (Option Checkpoint)
  pub create_checkpoint : State → Checkpoint → State × Result (Unit {0})
  -- The CDI cache, and what the CDI libraries compute.
  pub write_spec : State → CdiSpec → String → State × Result (Unit {0})
  pub remove_spec : State → String → State × Result (Unit {0})
  pub minimum_version : List CdiDevice → Result String
  pub transient_spec_name : String → String
  pub qualified_name : String → String
  pub append_edits : ContainerEdits → ContainerEdits → ContainerEdits
  -- os: directories, and links; lstat tells whether the file is a link.
  pub device_root : String
  pub make_dirs : State → String → State × Result (Unit {0})
  pub lstat : State → String → Result Bool
  pub read_link : State → String → Result String
  pub remove : State → String → State × Result (Unit {0})
  pub symlink : State → String → String → State × Result (Unit {0})
  -- filepath.Join, json.Unmarshal and time.Now.
  pub join_path : String → String → String
  pub unmarshal_params : String → Option Fields
  pub now : State → ℕ

abbrev pub default_host_device_target : String
default_host_device_target = "/dev/null"

module _ (n : Node) where
  -- Whether the link is the wanted one; an error in reading it means that it is not.
  abbrev pub is_link_to : n.State → String → String → Bool
  is_link_to s path target = elim (n.read_link s path) [
    | ok current ↦ current == target
    | _ ↦ false
  ]

  abbrev pub create_link : String → String → Eff n.State (Unit {0})
  create_link path target s = n.symlink s target path

  abbrev pub replace_link : String → String → Eff n.State (Unit {0})
  replace_link path target = (λ s. n.remove s path) >> create_link path target

  -- By what lstat found, and whether that is a link to the target.
  unfoldable pub place_link : String → String → Result Bool → Bool → Eff n.State (Unit {0})
  place_link path target (ok true) true = lift (ok tt)
  place_link path target (ok true) false = replace_link path target
  place_link path target (ok false) right = replace_link path target
  place_link path target (err not_found) right = create_link path target
  place_link path target (err e) right = lift (err e)
  place_link path target panic right = lift panic

  unfoldable pub ensure_symlink : String → String → Eff n.State (Unit {0})
  unfolding place_link
  ensure_symlink path target s =
      place_link path target (n.lstat s path) (is_link_to s path target) s

  abbrev pub channel_node : String → DeviceNode
  channel_node path = record {
    path = path;
    node_type = "c";
    file_mode = 0o660;
    major = 1;
    minor = 3;
  }

  unfoldable pub ensure_domain_device_nodes : DomainInfo → Eff n.State (List DeviceNode)
  unfolding ensure_symlink
  ensure_domain_device_nodes info =
      let dir = n.join_path n.device_root info.domain_id in
      let channel = n.join_path dir "channel-0" in
      (λ s. n.make_dirs s dir)
      >> (ensure_symlink channel default_host_device_target
          >> lift (ok (channel_node channel ∷ [])))

  unfoldable pub container_edits : DomainInfo → Eff n.State ContainerEdits
  unfolding ensure_domain_device_nodes
  container_edits info = ensure_domain_device_nodes info >>= λ nodes.
      lift (ok (record { env = []; device_nodes = nodes }))
