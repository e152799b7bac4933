-- ===== src/Node/Setup.antt =====
-- node/node.go and node/config.go: the files, the arguments and the configuration of a node.
pub mod Written
use idena_test_go.Prelude.{
  ℕ, ◌*◌, ◌≡◌, refl, sym, ap, ◌∙◌, Bool, true, List, [], ◌∷◌, ◌++◌, Option, none, some, Bytes,
  codes, length, append_assoc, ltb, ◌==◌, if◌then◌else◌,
}
use idena_test_go.Prelude.Int.{ℤ}
use idena_test_go.Prelude.Decimal.{itoa, itoa_injective, dashed_injective}
use idena_test_go.Node.{Node}

-- `filepath.Join`, on parts that are clean paths; an empty part is left out.
unfoldable pub join : Bytes → Bytes → Bytes
join [] path = path
join (c ∷ dir) [] = c ∷ dir
join (c ∷ dir) (d ∷ path) = (c ∷ dir) ++ b'/' ∷ d ∷ path

-- `getConfigFileName`
unfoldable pub get_config_file_name : Node → Bytes
unfolding itoa
get_config_file_name node =
    codes "config-" ++ (itoa node.index ++ b'-' ∷ (itoa node.rpc_port ++ codes ".json"))

-- `getConfigFileFullName`
unfoldable pub get_config_file_full_name : Node → Bytes
unfolding join get_config_file_name
get_config_file_full_name node = join (join node.work_dir node.data_dir) (get_config_file_name node)

unfoldable pub node_dir : Node → Bytes
unfolding join
node_dir node = join (join node.work_dir node.data_dir) node.node_data_dir

-- The name of the file that `deleteDb` removes.
unfoldable pub db_file : Node → Bytes
unfolding node_dir join
db_file node = join (node_dir node) (codes "idenachain.db")

unfoldable pub log_file : Node → Bytes
unfolding join itoa
log_file node =
    join (join node.work_dir node.data_dir)
      (codes "node-" ++ (itoa node.index ++ b'-' ∷ (itoa node.rpc_port ++ codes ".log")))

abbrev pub profile_args : Bytes → List Bytes
profile_args [] = []
profile_args (c ∷ profile) = codes "--profile" ∷ (c ∷ profile) ∷ []

-- `getArgs`
unfoldable pub get_args : Node → List Bytes
unfolding join get_config_file_name itoa
get_args node =
    codes "--config"
    ∷ join node.data_dir (get_config_file_name node)
    ∷ codes "--verbosity"
    ∷ itoa node.verbosity
    ∷ codes "--apikey"
    ∷ node.api_key_value
    ∷ profile_args node.profile

-- `specConfig`, without the fields that the code leaves out of the file.
pub record P2pConfig : Type 0 where
  pub max_delay : ℕ
  pub multishard : Bool

pub record RpcConfig : Type 0 where
  pub http_host : Bytes
  pub http_port : ℕ

-- The allocation is that of the god address; a balance is in coins of idena-go.
pub record GenesisConf : Type 0 where
  pub alloc : List (Bytes × ℕ)
  pub first_ceremony_time : ℤ
  pub god_address : Bytes
  pub god_address_invites : ℕ

pub record IpfsConfig : Type 0 where
  pub data_dir : Bytes
  pub boot_nodes : List Bytes
  pub ipfs_port : ℕ

-- The flips are loaded in a time in minutes.
pub record SyncConfig : Type 0 where
  pub fast_sync : Bool
  pub force_full_sync : ℕ
  pub load_all_flips : Bool
  pub all_flips_loading_time : ℕ

pub record SpecConfig : Type 0 where
  pub network : ℕ
  pub data_dir : Bytes
  pub p2p : P2pConfig
  pub rpc : RpcConfig
  pub genesis_conf : GenesisConf
  pub auto_mine : Bool
  pub ipfs_conf : IpfsConfig
  pub sync_conf : SyncConfig

-- The values of idena-go that a configuration takes, and how it is written: `json.Marshal` behind the merge
-- with the base configuration.
pub record Defaults : Type 0 where
  pub god_address : Bytes
  pub ipfs_data_dir : Bytes
  pub force_full_sync : ℕ
  pub written : SpecConfig → (base : Option Bytes) → Bytes

abbrev pub given_or : (default : Bytes) → Bytes → Bytes
given_or default [] = default
given_or default (c ∷ text) = c ∷ text

abbrev pub boot_nodes_of : Bytes → List Bytes
boot_nodes_of [] = []
boot_nodes_of (c ∷ text) = (c ∷ text) ∷ []

-- `buildSpecificConfig`
unfoldable pub build_specific_config : Defaults → Node → SpecConfig
unfolding join
build_specific_config defaults node =
    let god_address = given_or defaults.god_address node.god_address in
    let data_dir = join node.data_dir node.node_data_dir in
    record {
      network = 2;
      data_dir = data_dir;
      p2p = record { max_delay = node.max_net_delay; multishard = node.is_shared };
      rpc = record { http_host = node.rpc_host; http_port = node.rpc_port };
      genesis_conf = record {
        alloc = (god_address, 99999999) ∷ [];
        first_ceremony_time = node.ceremony_time;
        god_address = god_address;
        god_address_invites = 65535;
      };
      auto_mine = node.auto_mine;
      ipfs_conf = record {
        data_dir = join data_dir defaults.ipfs_data_dir;
        boot_nodes = boot_nodes_of node.ipfs_boot_node;
        ipfs_port = node.ipfs_port;
      };
      sync_conf = record {
        fast_sync = true;
        force_full_sync = defaults.force_full_sync;
        load_all_flips = node.is_shared;
        all_flips_loading_time = if node.is_shared then 4 else 2 * 60;
      };
    }

-- `buildNodeConfigFileData`
unfoldable pub build_node_config_file_data : Defaults → Node → Bytes
unfolding build_specific_config
build_node_config_file_data defaults node =
    defaults.written (build_specific_config defaults node) node.base_config_data
