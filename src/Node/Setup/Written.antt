-- ===== src/Node/Setup/Written.antt =====
-- node/node.go: the file of the configuration that a node reads when it starts.
use mathlib.Core.List.{append_cancel_left, tail-eq_of_cons-eq, head-eq_of_cons-eq}
use idena_test_go.Prelude.{
  ℕ, ◌≡◌, ◌≢◌, refl, sym, ap, ◌∙◌, Bool, true, false, [], ◌∷◌, ◌++◌, Option, none, some, Bytes,
  codes, arith, if◌then◌else◌,
}
use idena_test_go.Prelude.Decimal.{itoa, dashed_injective}
use idena_test_go.Prelude.Result.{Result, Error, ok, err, unable}
use idena_test_go.Node.{Node, StartMode}
use idena_test_go.Node.Setup.{
  Defaults, join, get_config_file_name, get_config_file_full_name, log_file, node_dir,
  build_node_config_file_data, get_args,
}
use idena_test_go.Node.Runs.{
  Os, Site, Written, then_written, with_files, then_files, deleted, delete_config_file,
  create_config_file, spawned, with_log, start_process, start,
}

-- Joining paths keeps different names apart.
join_injective :
    (dir : Bytes) (c d : ℕ) (path other : Bytes)
    → join dir (c ∷ path) ≡ join dir (d ∷ other)
    → Path Bytes (c ∷ path) (d ∷ other)
unfolding join
join_injective [] c d path other e = e
join_injective (b ∷ dir) c d path other e =
    tail-eq_of_cons-eq (append_cancel_left (b ∷ dir) (b'/' ∷ c ∷ path) (b'/' ∷ d ∷ other) e)

-- Nodes of different indices that share their directories have different configuration files.
pub get_config_file_full_name-index :
    (a b : Node)
    → a.work_dir ≡ b.work_dir
    → a.data_dir ≡ b.data_dir
    → get_config_file_full_name a ≡ get_config_file_full_name b
    → a.index ≡ b.index
unfolding get_config_file_full_name get_config_file_name
get_config_file_full_name-index a b work files same =
    let dir = join a.work_dir a.data_dir in
    let there : join dir (get_config_file_name a) ≡ join dir (get_config_file_name b) =
      same ∙ ap (λ d. join d (get_config_file_name b)) (λ i. join (sym work i) (sym files i)) in
    dashed_injective a.index b.index (itoa a.rpc_port ++ codes ".json")
      (itoa b.rpc_port ++ codes ".json")
      (append_cancel_left (codes "config-") _ _ (join_injective dir b'c' b'c' _ _ there))

-- So are their logs, and their own directories if these have the names that a process gives them.
pub log_file-index :
    (a b : Node)
    → a.work_dir ≡ b.work_dir
    → a.data_dir ≡ b.data_dir
    → log_file a ≡ log_file b
    → a.index ≡ b.index
unfolding log_file
log_file-index a b work files same =
    let dir = join a.work_dir a.data_dir in
    let named : Node → Bytes =
      λ n. codes "node-" ++ (itoa n.index ++ b'-' ∷ (itoa n.rpc_port ++ codes ".log")) in
    let there : join dir (named a) ≡ join dir (named b) =
      same ∙ ap (λ d. join d (named b)) (λ i. join (sym work i) (sym files i)) in
    dashed_injective a.index b.index (itoa a.rpc_port ++ codes ".log")
      (itoa b.rpc_port ++ codes ".log")
      (append_cancel_left (codes "node-") _ _ (join_injective dir b'n' b'n' _ _ there))

abbrev dir_name : (index port : ℕ) → Bytes
dir_name index port = codes "datadir-" ++ (itoa index ++ b'-' ∷ itoa port)

pub node_dir-index :
    (a b : Node) (i j p q : ℕ)
    → a.work_dir ≡ b.work_dir
    → a.data_dir ≡ b.data_dir
    → a.node_data_dir ≡ codes "datadir-" ++ (itoa i ++ b'-' ∷ itoa p)
    → b.node_data_dir ≡ codes "datadir-" ++ (itoa j ++ b'-' ∷ itoa q)
    → node_dir a ≡ node_dir b
    → i ≡ j
unfolding node_dir
node_dir-index a b i j p q work files first second same =
    let dir = join a.work_dir a.data_dir in
    let there : join dir (dir_name i p) ≡ join dir (dir_name j q) =
      ap (join dir) (sym first)
      ∙ same
      ∙ ap (λ d. join d b.node_data_dir) (λ k. join (sym work k) (sym files k))
      ∙ ap (join dir) second in
    dashed_injective i j (itoa p) (itoa q)
      (append_cancel_left (codes "datadir-") _ _ (join_injective dir b'd' b'd' _ _ there))

-- The configuration and the log of a node are different files.
config_log_differ : (node : Node) → get_config_file_full_name node ≢ log_file node
unfolding get_config_file_full_name get_config_file_name log_file
config_log_differ node same =
    let first : b'c' ≡ b'n' =
      head-eq_of_cons-eq (join_injective (join node.work_dir node.data_dir) b'c' b'n' _ _ same) in
    absurd (omega (arith, first))

abbrev pub text_or_empty : Option Bytes → Bytes
text_or_empty none = []
text_or_empty (some text) = text

-- What an operating system does with files, where `read` gives what is in a file, if there is one.
pub record FileLaws {Files : Type 0} (os : Os Files) (read : Bytes → Files → Option Bytes)
    : Type 0 where
  pub removed :
      (path : Bytes) (files now : Files) → os.remove path files ≡ some now → read path now ≡ none
  pub opened :
      (path : Bytes) (files now : Files)
      → os.open_file path files ≡ some now
      → read path now ≡ some (text_or_empty (read path files))
  pub appended :
      (path text : Bytes) (files : Files)
      → (os.write path text files).is_whole ≡ true
      → read path (os.write path text files).files ≡ some (text_or_empty (read path files) ++ text)
  pub other_kept :
      (path other : Bytes) (files now : Files)
      → path ≢ other
      → os.open_file other files ≡ some now
      → read path now ≡ read path files

-- No write breaks off.
abbrev pub WritesAll : {Files : Type 0} → Os Files → Type 0
WritesAll {Files = Files} os =
    (path text : Bytes) (files : Files) → (os.write path text files).is_whole ≡ true

module _ {Files : Type 0} (os : Os Files) (defaults : Defaults) where
  -- A step on the files that does not end in an error has files, and goes on with them.
  then_files-ok :
      (site : Site Files) (e : Error) (files : Option Files)
      (rest : Site Files → Site Files × Result (Unit {0}))
      → (then_files os defaults site e files rest).1 ≡ ok tt
      → (now : Files) × (files ≡ some now)
        × ((rest (with_files os defaults site now)).1 ≡ ok tt)
        × ((then_files os defaults site e files rest).0
            ≡ (rest (with_files os defaults site now)).0)
  then_files-ok site e none rest h = cc
  then_files-ok site e (some now) rest h = (now, refl, h, refl)

  spawned-files :
      (site : Site Files) (b : Bool) → (spawned os defaults site b).0.world.files ≡ site.world.files
  unfolding spawned
  spawned-files site true = refl
  spawned-files site false = refl

  then_written-ok :
      (site : Site Files) (written : Written Files)
      (rest : Site Files → Site Files × Result (Unit {0}))
      → (then_written os defaults site written rest).1 ≡ ok tt
      → ((rest (with_files os defaults site written.files)).1 ≡ ok tt)
        × ((then_written os defaults site written rest).0
            ≡ (rest (with_files os defaults site written.files)).0)
  unfolding then_written
  then_written-ok site written rest =
      elim written.fails
        as (λ fails.
          let all =
            if fails
            then (
              with_files os defaults site written.files,
              err (unable "unable to fill node config file"),
            )
            else rest (with_files os defaults site written.files) in
          all.1 ≡ ok tt
          → ((rest (with_files os defaults site written.files)).1 ≡ ok tt)
            × (all.0 ≡ (rest (with_files os defaults site written.files)).0)) [
              | true ↦ λ h. cc
              | false ↦ λ h. (h, refl)
            ]

  -- When a start returns without an error, and no write breaks off, the file that the arguments name holds
  -- the configuration of the node as it is set then, and nothing else, whatever was in the file before.
  pub start-written :
      (read : Bytes → Files → Option Bytes) (mode : StartMode) (site : Site Files)
      → FileLaws os read
      → WritesAll os
      → (start os defaults mode site).1 ≡ ok tt
      → read (get_config_file_full_name site.node) (start os defaults mode site).0.world.files
        ≡ some (build_node_config_file_data defaults site.node)
  unfolding start start_process delete_config_file create_config_file
  start-written read mode site laws whole done =
      let name = get_config_file_full_name site.node in
      let (cleared, e1, done1, same1) =
        then_files-ok site _ (deleted os defaults mode site.node site.world.files) _ done in
      let (gone, e2, done2, same2) =
        then_files-ok (with_files os defaults site cleared) _ (os.remove name cleared) _ done1 in
      let data_text = build_node_config_file_data defaults site.node in
      let (made, e3, done3, same3) =
        then_files-ok (with_files os defaults site gone) _ (os.open_file name gone) _ done2 in
      let written = os.write name data_text made in
      let (done4, same4) =
        then_written-ok (with_files os defaults site made) written (start_process os defaults)
          done3 in
      let (opened, e5, done5, same5) =
        then_files-ok (with_files os defaults site written.files)
          (unable "unable to init node log file") (os.open_file (log_file site.node) written.files)
          _ done4 in
      ap (λ s. read name s.world.files) (same1 ∙ same2 ∙ same3 ∙ same4 ∙ same5)
      ∙ ap (read name) (
          spawned-files (with_log os defaults (with_files os defaults site opened))
            (os.starts (join site.node.work_dir site.node.exec_command_name) (get_args site.node)))
      ∙ laws.other_kept name (log_file site.node) written.files opened (config_log_differ site.node)
          e5
      ∙ laws.appended name data_text made (whole name data_text made)
      ∙ ap (λ t. some (text_or_empty t ++ data_text)) (laws.opened name gone made e3)
      ∙ ap (λ t. some (text_or_empty t ++ data_text)) (laws.removed name cleared gone e2)
