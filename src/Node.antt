-- ===== src/Node.antt =====
-- node/: the node of a user, a process that the bot starts and kills. `Setup` has the configuration that the node
-- gets, `Runs` the starts and stops, and `Alive` which processes are alive after them.
pub mod Setup
pub mod Runs
pub mod Spawns
pub mod Leftover
pub mod Alive
pub mod Leak
pub mod Memory
mod Tests
use idena_test_go.Prelude.{ℕ, Bool, List, Option, none, some, Bytes}
use idena_test_go.Prelude.Int.{ℤ}

-- `Node`. A process is its number, a log writer is whether there is one, and the waits after a start and a
-- stop are left out.
pub record Node : Type 0 where
  pub index : ℕ
  pub work_dir : Bytes
  pub exec_command_name : Bytes
  pub data_dir : Bytes
  pub node_data_dir : Bytes
  pub port : ℕ
  pub auto_mine : Bool
  pub rpc_host : Bytes
  pub rpc_port : ℕ
  pub ipfs_boot_node : Bytes
  pub ipfs_port : ℕ
  pub god_address : Bytes
  pub ceremony_time : ℤ
  pub process : Option ℕ
  pub has_log_writer : Bool
  pub verbosity : ℕ
  pub max_net_delay : ℕ
  pub base_config_data : Option Bytes
  pub api_key_value : Bytes
  pub profile : Bytes
  pub is_shared : Bool
  pub private_key : Option Bytes

-- `StartMode`
pub data StartMode : Type 0 where
  delete_nothing delete_data_dir delete_db : StartMode
