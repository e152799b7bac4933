-- ===== src/Config.antt =====
-- config/config.go: the settings of the program, from a file and from the defaults.
mod Tests
pub mod Complete
use idena_test_go.Prelude.{
  ℕ, Bool, true, false, ◌||◌, List, [], ◌∷◌, Option, none, some, Bytes, codes, if◌then◌else◌,
}
use idena_test_go.Prelude.Int.{ℤ, pos, ltb_ℤ}
use idena_test_go.Prelude.Result.{Result, ok, panic, raised, unreadable, ◌>>=◌}

-- `F` is float32.
pub record Config (F : Type 0) : Type 0 where
  pub verbosity : ℤ
  pub node_verbosity : ℤ
  pub max_net_delay : Option ℤ
  pub work_dir : Bytes
  pub command : Bytes
  pub scenario : Bytes
  pub node_config : Bytes
  pub rpc_addr : Bytes
  pub god_mode : Bool
  pub god_host : Bytes
  pub port_offset : ℤ
  pub node_start_waiting_sec : ℤ
  pub node_start_pause_ms : ℤ
  pub node_stop_waiting_sec : ℤ
  pub first_rpc_port : ℤ
  pub first_ipfs_port : ℤ
  pub first_port : ℤ
  pub flips_chan_size : ℤ
  pub low_power_profile_rate : F
  pub fast_newbie : Bool
  pub validation_only : Bool
  pub allow_fail_notification : Bool
  pub min_flip_size : ℤ
  pub max_flip_size : ℤ
  pub decrypt_flips : Bool
  pub random_api_keys : Bool
  pub predefined_api_keys : List Bytes
  pub validation_timeout_extra_minutes : ℤ

-- `if from > 0 { to = from }`, and the same for a pointer and for a text.
abbrev pub positive_or : ℤ → ℤ → ℤ
positive_or from to = if ltb_ℤ (pos 0) from then from else to

abbrev pub some_or : Option ℤ → Option ℤ → Option ℤ
some_or none to = to
some_or (some n) to = some n

abbrev pub text_or : Bytes → Bytes → Bytes
text_or [] to = to
text_or (c ∷ from) to = c ∷ from

-- `merge(from, to)`: what `to` becomes.
unfoldable pub merge : {F : Type 0} (from to : Config F) → Config F
merge from to = record {
  verbosity = positive_or from.verbosity to.verbosity;
  node_verbosity = positive_or from.node_verbosity to.node_verbosity;
  max_net_delay = some_or from.max_net_delay to.max_net_delay;
  work_dir = text_or from.work_dir to.work_dir;
  command = text_or from.command to.command;
  scenario = from.scenario;
  node_config = from.node_config;
  rpc_addr = text_or from.rpc_addr to.rpc_addr;
  god_mode = from.god_mode;
  god_host = from.god_host;
  port_offset = positive_or from.port_offset to.port_offset;
  node_start_waiting_sec = positive_or from.node_start_waiting_sec to.node_start_waiting_sec;
  node_start_pause_ms = positive_or from.node_start_pause_ms to.node_start_pause_ms;
  node_stop_waiting_sec = positive_or from.node_stop_waiting_sec to.node_stop_waiting_sec;
  first_rpc_port = positive_or from.first_rpc_port to.first_rpc_port;
  first_ipfs_port = positive_or from.first_ipfs_port to.first_ipfs_port;
  first_port = positive_or from.first_port to.first_port;
  flips_chan_size = from.flips_chan_size;
  low_power_profile_rate = from.low_power_profile_rate;
  fast_newbie = from.fast_newbie;
  validation_only = from.validation_only;
  allow_fail_notification = from.allow_fail_notification;
  min_flip_size = positive_or from.min_flip_size to.min_flip_size;
  max_flip_size = positive_or from.max_flip_size to.max_flip_size;
  decrypt_flips = from.decrypt_flips;
  random_api_keys = from.random_api_keys;
  predefined_api_keys = from.predefined_api_keys;
  validation_timeout_extra_minutes =
      positive_or from.validation_timeout_extra_minutes to.validation_timeout_extra_minutes;
}

-- `defaultConfig`, in a working directory; `zero` is the float 0.
unfoldable pub default_config : {F : Type 0} (zero : F) (work_dir : Bytes) → Config F
default_config zero work_dir = record {
  verbosity = pos 3;
  node_verbosity = pos 5;
  max_net_delay = some (pos 500);
  work_dir = work_dir;
  command = codes "idena-go";
  scenario = [];
  node_config = [];
  rpc_addr = codes "localhost";
  god_mode = false;
  god_host = [];
  port_offset = pos 0;
  node_start_waiting_sec = pos 10;
  node_start_pause_ms = pos 1000;
  node_stop_waiting_sec = pos 4;
  first_rpc_port = pos 9010;
  first_ipfs_port = pos 4010;
  first_port = pos 40410;
  flips_chan_size = pos 0;
  low_power_profile_rate = zero;
  fast_newbie = false;
  validation_only = false;
  allow_fail_notification = false;
  min_flip_size = pos 80000;
  max_flip_size = pos 160000;
  decrypt_flips = false;
  random_api_keys = false;
  predefined_api_keys = [];
  validation_timeout_extra_minutes = pos 10;
}

-- `LoadFromFileWithDefaults`, where `load` is the configuration that is read from the path and decoded,
-- if it can be, and the working directory is none where it has an error.
unfoldable pub load_from_file_with_defaults :
    {F : Type 0} (zero : F) (getwd : Option Bytes) (load : Bytes → Option (Config F)) (path : Bytes)
    (god_bot_mode : Bool) (port_offset : ℤ)
    → Result (Config F)
unfolding default_config merge
load_from_file_with_defaults zero none load path god_bot_mode port_offset =
    panic (raised unreadable)
load_from_file_with_defaults zero (some dir) load [] god_bot_mode port_offset =
    ok (default_config zero dir)
load_from_file_with_defaults zero (some dir) load (c ∷ path) god_bot_mode port_offset =
    elim (load (c ∷ path)) [
      | none ↦ panic (raised unreadable)
      | some from ↦
          let merged = merge from (default_config zero dir) in
          ok (record merged {
            god_mode = if god_bot_mode then god_bot_mode else merged.god_mode;
            port_offset = positive_or port_offset merged.port_offset;
          })
    ]
