-- ===== src/Tests/Domains.antt =====
-- A node with the compute-domain plugin that prepares and unprepares a claim.
use Prim.Native.String
use fake_gpu_operator.Base.{
  false, ◌≡◌, refl, Option, none, some, List, [], ◌∷◌, ◌⊎◌, ◌++◌, All, true,
}
use fake_gpu_operator.Base.Dict.{lookup, insert, erase}
use fake_gpu_operator.Base.Text.{decimal}
use fake_gpu_operator.Base.Result.{ok, err, not_found}
use fake_gpu_operator.Profile.Yaml.{end, field, str, get}
use fake_gpu_operator.DomainPlugin.{
  Checkpoint, DomainClaim, PreparedDevice, prepared, unprepared, new_checkpoint,
  get_or_create_domain,
}
use fake_gpu_operator.DomainPlugin.Files.{Node, container_edits}
use fake_gpu_operator.DomainPlugin.Calls.{prepare, unprepare}
use fake_gpu_operator.DomainPlugin.Valid.{IsValid, is_prepared}
use fake_gpu_operator.DomainPlugin.Steps.{Step, new_checkpoint-IsValid}
use fake_gpu_operator.DomainPlugin.Refines.{
  KeepsCheckpoint, Call, prepare_claim, unprepare_claim, checkpoint_of, after, after_all,
  after-Moves, after_all-IsValid,
}
use fake_gpu_operator.DomainPlugin.Driver.{prepare_resource_claims}
use fake_gpu_operator.DomainPlugin.Batches.{
  Entries, HoldsValid, has_entry, prepare_resource_claims-HoldsValid,
}
use fake_gpu_operator.DomainPlugin.Again.{prepare_again, unprepare-prepare}

-- Its files are the checkpoint only; every other write succeeds and is forgotten.
abbrev node : Node
node = record {
  State = Option Checkpoint;
  list_checkpoints = λ s. ok [];
  get_checkpoint = λ s. ok s;
  create_checkpoint = λ s cp. (some cp, ok tt);
  write_spec = λ s spec name. (s, ok tt);
  remove_spec = λ s name. (s, ok tt);
  minimum_version = λ devices. ok "0.6.0";
  transient_spec_name = λ uid. uid;
  qualified_name = λ name. name;
  append_edits = λ own edits. record {
    env = own.env ++ edits.env;
    device_nodes = own.device_nodes ++ edits.device_nodes;
  };
  device_root = "/nvcdi";
  make_dirs = λ s path. (s, ok tt);
  lstat = λ s path. err not_found;
  read_link = λ s path. err not_found;
  remove = λ s path. (s, ok tt);
  symlink = λ s target path. (s, ok tt);
  join_path = λ dir name. String.◌++◌ dir (String.◌++◌ "/" name);
  unmarshal_params = λ text. some (field "domainID" (str text) end);
  now = λ s. 7;
}

keeps : KeepsCheckpoint node
keeps = record {
  create_written = λ s cp. refl;
  spec_written = λ s spec name. refl;
  spec_removed = λ s name. refl;
  dirs_made = λ s path. refl;
  file_removed = λ s path. refl;
  linked = λ s target path. refl;
}

abbrev claim : DomainClaim
claim = record {
  uid = "uid-1";
  namespace = "default";
  requests = some "compute-domain-default-channel.nvidia.com" ∷ [];
  configs = some (record { driver = "compute-domain.nvidia.com"; parameters = "domain-1" }) ∷ [];
}

abbrev devices : List PreparedDevice
devices =
    record {
      request_names = "channel" ∷ [];
      pool_name = "default";
      device_name = "channel-0";
      cdi_device_ids = "uid-1-channel-0" ∷ [];
      container_edits = some (record {
        env = [];
        device_nodes =
            record {
              path = "/nvcdi/domain-1/channel-0";
              node_type = "c";
              file_mode = 0o660;
              major = 1;
              minor = 3;
            }
            ∷ [];
      });
    }
    ∷ []

abbrev stored : Option Checkpoint
stored = some (prepared "uid-1" "domain-1" 7 devices new_checkpoint)

preparing : prepare node [] claim none ≡ (stored, ok devices)
unfolding prepare lookup get insert decimal get_or_create_domain container_edits
preparing = refl

again : prepare node [] claim stored ≡ (stored, ok devices)
unfolding prepare prepared lookup get insert decimal
again = refl

unpreparing : unprepare node "uid-1" stored ≡ (some new_checkpoint, ok tt)
unfolding unprepare prepared unprepared lookup insert erase
unpreparing = refl

new : is_prepared "uid-1" new_checkpoint ≡ false
unfolding lookup
new = refl

prepare_again_example :
    (devices ≡ devices) × (node.get_checkpoint stored ≡ node.get_checkpoint stored)
prepare_again_example =
    prepare_again node keeps [] claim none stored none devices refl new preparing stored devices
      again

unprepare-prepare_example : node.get_checkpoint (some new_checkpoint) ≡ ok (some new_checkpoint)
unprepare-prepare_example =
    unprepare-prepare node keeps [] claim none stored none devices refl new preparing
      (some new_checkpoint) new_checkpoint-IsValid unpreparing

after-Moves_example :
    (node.get_checkpoint (after node keeps [] (prepare_claim claim) none) ≡ ok none)
    ⊎ ((cp' : Checkpoint) × (node.get_checkpoint (after node keeps [] (prepare_claim claim) none)
          ≡ ok (some cp'))
        × Step new_checkpoint cp')
after-Moves_example = after-Moves node keeps [] (prepare_claim claim) none none refl

abbrev calls : List Call
calls = prepare_claim claim ∷ unprepare_claim "uid-1" ∷ []

after_all-IsValid_example :
    (stored' : Option Checkpoint) × (node.get_checkpoint (after_all node keeps [] calls none)
      ≡ ok stored')
    × IsValid (checkpoint_of stored')
after_all-IsValid_example =
    after_all-IsValid node keeps [] calls none none refl new_checkpoint-IsValid

-- The second claim has no device class.
abbrev claims : List DomainClaim
claims = claim ∷ record claim { uid = "uid-2"; requests = [] } ∷ []

prepare_resource_claims-HoldsValid_example :
    HoldsValid node keeps [] (prepare_resource_claims node [] claims [] none).0
    × ((entries : Entries)
        → (prepare_resource_claims node [] claims [] none).1 ≡ ok entries
        → All (λ (c : DomainClaim). has_entry c.uid entries ≡ true) claims)
prepare_resource_claims-HoldsValid_example =
    prepare_resource_claims-HoldsValid node keeps [] claims [] none
      (none, refl, new_checkpoint-IsValid)
