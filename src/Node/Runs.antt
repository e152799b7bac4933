-- ===== src/Node/Runs.antt =====
-- node/node.go: how a node is started, stopped and destroyed, and its private key.
use idena_test_go.Prelude.{
  ℕ, suc, Bool, true, false, List, [], ◌∷◌, Option, none, some, Bytes, codes, ◌==◌, if◌then◌else◌,
}
use idena_test_go.Prelude.Int.{ℤ}
use idena_test_go.Prelude.Result.{Result, Error, ok, err, unable}
use idena_test_go.Node.{Node, StartMode, delete_nothing, delete_data_dir, delete_db}
use idena_test_go.Node.Setup.{
  Defaults, join, get_config_file_full_name, node_dir, db_file, log_file, get_args,
  build_node_config_file_data,
}

-- What a buffered write and its flush leave: the files, whether the write returns an error, which it does only
-- where the text does not fit into the buffer, and whether all of the text is in the file.
pub record Written (Files : Type 0) : Type 0 where
  pub files : Files
  pub fails : Bool
  pub is_whole : Bool

-- The operating system: files, where `open_file` makes a file that is missing and `write` appends, and
-- processes. Another operation that fails is none or false.
pub record Os (Files : Type 0) : Type 0 where
  -- `removeFile`, which also does nothing where there is no file
  pub remove : Bytes → Files → Option Files
  pub open_file : Bytes → Files → Option Files
  pub write : (path text : Bytes) → Files → Written Files
  pub starts : (command : Bytes) → List Bytes → Bool
  pub kills : ℕ → Bool

-- What a node runs in: the files, the processes that it has started and that are alive, and the number of
-- the next one.
pub record World (Files : Type 0) : Type 0 where
  pub files : Files
  pub live : List ℕ
  pub next : ℕ

-- A node in its world.
pub record Site (Files : Type 0) : Type 0 where
  pub node : Node
  pub world : World Files

abbrev pub without : ℕ → List ℕ → List ℕ
without pid [] = []
without pid (p ∷ live) = if p == pid then without pid live else p ∷ without pid live

module _ {Files : Type 0} (os : Os Files) (defaults : Defaults) where
  abbrev pub with_files : Site Files → Files → Site Files
  with_files site files = record site { world = record site.world { files = files } }

  -- A step on the files and then the rest, or the error.
  abbrev pub then_files :
      Site Files
      → Error
      → Option Files
      → (Site Files → Site Files × Result (Unit {0}))
      → Site Files × Result (Unit {0})
  then_files site e none rest = (site, err e)
  then_files site e (some files) rest = rest (with_files site files)

  -- What `Start` deletes first.
  unfoldable pub deleted : StartMode → Node → Files → Option Files
  unfolding node_dir db_file
  deleted delete_nothing node files = some files
  deleted delete_data_dir node files = os.remove (node_dir node) files
  deleted delete_db node files = os.remove (db_file node) files

  -- `deleteConfigFile`
  unfoldable pub delete_config_file : Node → Files → Option Files
  unfolding get_config_file_full_name
  delete_config_file node files = os.remove (get_config_file_full_name node) files

  -- The write of `createConfigFile`, whose flush may fail without an error.
  unfoldable pub then_written :
      Site Files
      → Written Files
      → (Site Files → Site Files × Result (Unit {0}))
      → Site Files × Result (Unit {0})
  then_written site written rest =
      if written.fails
      then (with_files site written.files, err (unable "unable to fill node config file"))
      else rest (with_files site written.files)

  -- `createConfigFile` and then the rest, or its error.
  unfoldable pub create_config_file :
      Site Files → (Site Files → Site Files × Result (Unit {0})) → Site Files × Result (Unit {0})
  unfolding get_config_file_full_name build_node_config_file_data then_written
  create_config_file site rest =
      then_files site (unable "unable to init node config file")
        (os.open_file (get_config_file_full_name site.node) site.world.files)
        (λ opened.
          then_written opened
            (os.write (get_config_file_full_name opened.node)
              (build_node_config_file_data defaults opened.node) opened.world.files)
            rest)

  -- The process, which replaces the one that the node had.
  unfoldable pub spawned : Site Files → Bool → Site Files × Result (Unit {0})
  spawned site false = (site, err (unable "unable to start node process"))
  spawned site true = (
    record {
      node = record site.node { process = some site.world.next };
      world = record site.world {
        live = site.world.next ∷ site.world.live;
        next = suc site.world.next;
      };
    },
    ok tt,
  )

  abbrev pub with_log : Site Files → Site Files
  with_log site = record site { node = record site.node { has_log_writer = true } }

  -- `Start` behind the configuration file.
  unfoldable pub start_process : Site Files → Site Files × Result (Unit {0})
  unfolding log_file get_args join spawned
  start_process site =
      then_files site (unable "unable to init node log file")
        (os.open_file (log_file site.node) site.world.files)
        (λ opened.
          spawned (with_log opened)
            (os.starts (join site.node.work_dir site.node.exec_command_name) (get_args site.node)))

  -- `Start`
  unfoldable pub start : StartMode → Site Files → Site Files × Result (Unit {0})
  unfolding deleted delete_config_file create_config_file start_process
  start mode site =
      then_files site (unable "unable to remove file") (deleted mode site.node site.world.files)
        (λ cleared.
          then_files cleared (unable "unable to remove file")
            (delete_config_file cleared.node cleared.world.files)
            (λ removed. create_config_file removed start_process))

  -- `killProcess`
  unfoldable pub kill_process : Site Files → ℕ → Bool → Site Files × Result (Unit {0})
  kill_process site pid false = (site, err (unable "unable to kill node process"))
  kill_process site pid true = (
    record {
      node = record site.node { process = none };
      world = record site.world { live = without pid site.world.live };
    },
    ok tt,
  )

  abbrev pub without_log : Site Files → Site Files
  without_log site = record site { node = record site.node { has_log_writer = false } }

  unfoldable pub kill_if : Site Files → Option ℕ → Site Files × Result (Unit {0})
  unfolding kill_process
  kill_if site none = (site, ok tt)
  kill_if site (some pid) = kill_process site pid (os.kills pid)

  -- `Destroy`, which is also `Stop` but for the wait.
  unfoldable pub destroy : Site Files → Site Files × Result (Unit {0})
  unfolding kill_if
  destroy site = kill_if (without_log site) site.node.process

-- `UpdateNodeParameters` of a user, and `SetExecCommandName`.
unfoldable pub update_node_parameters : (god_address ipfs_boot_node : Bytes) → ℤ → Node → Node
update_node_parameters god_address ipfs_boot_node ceremony_time node = record node {
  god_address = god_address;
  ipfs_boot_node = ipfs_boot_node;
  ceremony_time = ceremony_time;
}

unfoldable pub set_exec_command_name : Bytes → Node → Node
set_exec_command_name name node = record node { exec_command_name = name }

unfoldable pub key_file : Node → Bytes
unfolding node_dir join
key_file node = join (join (node_dir node) (codes "keystore")) (codes "nodekey")

abbrev pub keep_private_key : Node → Option Bytes → Node × Option Bytes
keep_private_key node none = (node, none)
keep_private_key node (some key) = (record node { private_key = some key }, some key)

unfoldable pub kept_or_loaded :
    (load : Bytes → Option Bytes) → Node → Option Bytes → Node × Option Bytes
unfolding key_file
kept_or_loaded load node (some key) = (node, some key)
kept_or_loaded load node none = keep_private_key node (load (key_file node))

-- `GetPrivateKey`, where `load` is `crypto.LoadECDSA` of idena-go.
unfoldable pub get_private_key : (load : Bytes → Option Bytes) → Node → Node × Option Bytes
unfolding kept_or_loaded
get_private_key load node = kept_or_loaded load node node.private_key
