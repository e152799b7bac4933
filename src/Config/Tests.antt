-- ===== src/Config/Tests.antt =====
-- Runs of the loading of a configuration.
use idena_test_go.Prelude.{◌≡◌, inr, refl, true, false, [], Option, none, some, Bytes, codes}
use idena_test_go.Prelude.Int.{ℤ, pos, negsuc}
use idena_test_go.Prelude.Result.{ok}
use idena_test_go.Config.{Config, default_config, merge, load_from_file_with_defaults}
use idena_test_go.Config.Complete.{IsComplete, load_from_file_with_defaults-IsComplete}

-- A file that asks for a verbosity of 4 and has a wrong first port.
abbrev file : Config ℤ
file = record {
  verbosity = pos 4;
  node_verbosity = pos 0;
  max_net_delay = none;
  work_dir = [];
  command = [];
  scenario = [];
  node_config = [];
  rpc_addr = [];
  god_mode = false;
  god_host = [];
  port_offset = pos 0;
  node_start_waiting_sec = pos 0;
  node_start_pause_ms = pos 0;
  node_stop_waiting_sec = pos 0;
  first_rpc_port = pos 0;
  first_ipfs_port = pos 0;
  first_port = negsuc 0;
  flips_chan_size = pos 0;
  low_power_profile_rate = pos 0;
  fast_newbie = true;
  validation_only = true;
  allow_fail_notification = true;
  min_flip_size = pos 0;
  max_flip_size = pos 0;
  decrypt_flips = true;
  random_api_keys = true;
  predefined_api_keys = [];
  validation_timeout_extra_minutes = pos 0;
}

abbrev load : Bytes → Option (Config ℤ)
load path = some file

abbrev loaded : Config ℤ
loaded = record (merge file (default_config (pos 0) (codes "/"))) {
  god_mode = true;
  port_offset = pos 7;
}

test_load :
    load_from_file_with_defaults (pos 0) (some (codes "/")) load (codes "config.json") true (pos 7)
    ≡ ok loaded
unfolding load_from_file_with_defaults merge
test_load = refl

test_merge : loaded.first_port ≡ pos 40410
unfolding merge default_config
test_merge = refl

-- Without a path the two flags of the command line are ignored.
test_no_path :
    load_from_file_with_defaults (pos 0) (some (codes "/")) load [] true (pos 7)
    ≡ ok (default_config (pos 0) (codes "/"))
unfolding load_from_file_with_defaults
test_no_path = refl

load_from_file_with_defaults-IsComplete_example :
    (c : Config ℤ) × (load_from_file_with_defaults
        (pos 0)
        (some (codes "/"))
        load
        (codes "config.json")
        true
        (pos 7)
      ≡ ok c)
    × IsComplete ℤ c
load_from_file_with_defaults-IsComplete_example =
    load_from_file_with_defaults-IsComplete (pos 0) (codes "/") load (codes "config.json") true
      (pos 7) (λ bad. cc) (inr (file, refl))
