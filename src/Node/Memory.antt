-- ===== src/Node/Memory.antt =====
-- An operating system with files in memory, for runs of nodes.
use idena_test_go.Prelude.{
  ◌≡◌, refl, sym, ap, ◌∙◌, Bool, true, false, [], ◌++◌, Option, none, some, Bytes, codes,
  append-nil, if◌then◌else◌,
}
use idena_test_go.Prelude.Int.{pos}
use idena_test_go.Process.Flips.{same_text}
use idena_test_go.Process.Flips.Sizes.{same_text_refl, same_text-eq}
use idena_test_go.Node.{Node}
use idena_test_go.Node.Setup.{Defaults}
use idena_test_go.Node.Setup.Written.{FileLaws, text_or_empty}
use idena_test_go.Node.Runs.{Os, Site}

abbrev pub Memory : Type 0
Memory = Bytes → Option Bytes

-- Reading, and the changes: a removed path has no file, and text goes behind what a file has.
abbrev pub read_memory : Bytes → Memory → Option Bytes
read_memory path files = files path

unfoldable pub removed_from : Bytes → Memory → Memory
unfolding same_text
removed_from path files q = if same_text q path then none else files q

unfoldable pub appended_to : Bytes → Bytes → Memory → Memory
unfolding same_text
appended_to path text files q =
    if same_text q path then some (text_or_empty (files q) ++ text) else files q

-- Every process starts, and can be killed.
abbrev pub memory_os : Os Memory
memory_os = record {
  remove = λ path files. some (removed_from path files);
  open_file = λ path files. some (appended_to path [] files);
  write = λ path text files. record {
    files = appended_to path text files;
    fails = false;
    is_whole = true;
  };
  starts = λ command args. true;
  kills = λ pid. true;
}

abbrev read_or : Option Memory → Bytes → Option Bytes
read_or none path = none
read_or (some files) path = files path

false_of : (b : Bool) → ¬ (b ≡ true) → b ≡ false
false_of true h = absurd (h refl)
false_of false h = refl

pub memory-FileLaws : FileLaws memory_os read_memory
unfolding removed_from appended_to
memory-FileLaws = record {
  removed = λ path files now e. ap (λ o. read_or o path) (sym e) ∙ rw (same_text_refl path) refl;
  opened = λ path files now e.
      ap (λ o. read_or o path) (sym e)
      ∙ rw (same_text_refl path) (ap some (append-nil (text_or_empty (files path))));
  appended = λ path text files whole. rw (same_text_refl path) refl;
  other_kept = λ path other files now differ e.
      ap (λ o. read_or o path) (sym e)
      ∙ rw (false_of (same_text path other) (λ t. differ (same_text-eq path other t))) refl;
}

abbrev pub defaults : Defaults
defaults = record {
  god_address = codes "0x00";
  ipfs_data_dir = codes "ipfs";
  force_full_sync = 100;
  written = λ config base. config.genesis_conf.god_address;
}

abbrev pub test_node : Node
test_node = record {
  index = 3;
  work_dir = codes "work";
  exec_command_name = codes "idena-go";
  data_dir = codes "datadir";
  node_data_dir = codes "datadir-3-9003";
  port = 4003;
  auto_mine = false;
  rpc_host = codes "localhost";
  rpc_port = 9003;
  ipfs_boot_node = [];
  ipfs_port = 5003;
  god_address = [];
  ceremony_time = pos 0;
  process = none;
  has_log_writer = false;
  verbosity = 3;
  max_net_delay = 0;
  base_config_data = none;
  api_key_value = codes "key";
  profile = [];
  is_shared = false;
  private_key = none;
}

abbrev pub test_site : Site Memory
test_site = record {
  node = test_node;
  world = record { files = λ path. none; live = []; next = 5 };
}
