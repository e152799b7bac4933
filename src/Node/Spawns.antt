-- ===== src/Node/Spawns.antt =====
-- node/node.go: what a start changes in the processes of a node.
use idena_test_go.Prelude.{
  suc, ◌≡◌, refl, ◌⊎◌, inl, inr, Bool, true, false, ◌∷◌, Option, none, some, if◌then◌else◌,
}
use idena_test_go.Prelude.Result.{Result, Error, ok, err, unable}
use idena_test_go.Node.{StartMode}
use idena_test_go.Node.Setup.{
  Defaults, join, get_args, get_config_file_full_name, build_node_config_file_data,
}
use idena_test_go.Node.Runs.{
  Os, Site, Written, then_written, with_files, then_files, deleted, delete_config_file,
  create_config_file, spawned, with_log, start_process, start,
}

-- The processes and the node's one are as before, or there is a new one in front and the node has it.
abbrev pub Same : {Files : Type 0} → Site Files → Site Files → Type 0
Same before after =
    (after.node.process ≡ before.node.process)
    × (after.world.live ≡ before.world.live)
    × (after.world.next ≡ before.world.next)

abbrev pub Spawned : {Files : Type 0} → Site Files → Site Files → Type 0
Spawned before after =
    (after.node.process ≡ some before.world.next)
    × (after.world.live ≡ before.world.next ∷ before.world.live)
    × (after.world.next ≡ suc before.world.next)

-- A start that fails changes neither, and one that does not fail has a new process.
abbrev pub Started : {Files : Type 0} → Site Files → Site Files × Result (Unit {0}) → Type 0
Started before (after, end) =
    ((e : Error) × (end ≡ err e) × Same before after) ⊎ ((end ≡ ok tt) × Spawned before after)

module _ {Files : Type 0} (os : Os Files) (defaults : Defaults) where
  spawned-Started : (site : Site Files) (b : Bool) → Started site (spawned os defaults site b)
  unfolding spawned
  spawned-Started site true = inr (refl, (refl, refl, refl))
  spawned-Started site false = inl (_, refl, (refl, refl, refl))

  -- A step on the files changes neither.
  then_files-Started :
      (site : Site Files) (e : Error) (files : Option Files)
      (rest : Site Files → Site Files × Result (Unit {0}))
      → ((now : Site Files) → Started now (rest now))
      → Started site (then_files os defaults site e files rest)
  then_files-Started site e none rest h = inl (e, refl, (refl, refl, refl))
  then_files-Started site e (some files) rest h = h (with_files os defaults site files)

  start_process-Started : (site : Site Files) → Started site (start_process os defaults site)
  unfolding start_process
  start_process-Started site = then_files-Started site _ _ _ λ opened.
      spawned-Started (with_log os defaults opened)
        (os.starts (join site.node.work_dir site.node.exec_command_name) (get_args site.node))

  then_written-Started :
      (site : Site Files) (written : Written Files)
      → Started site (then_written os defaults site written (start_process os defaults))
  unfolding then_written
  then_written-Started site written =
      elim written.fails
        as (λ fails. Started site (
          if fails
          then (
            with_files os defaults site written.files,
            err (unable "unable to fill node config file"),
          )
          else start_process os defaults (with_files os defaults site written.files))) [
            | true ↦ inl (_, refl, (refl, refl, refl))
            | false ↦ start_process-Started (with_files os defaults site written.files)
          ]

  create_config_file-Started :
      (site : Site Files)
      → Started site (create_config_file os defaults site (start_process os defaults))
  unfolding create_config_file
  create_config_file-Started site =
      then_files-Started site (unable "unable to init node config file")
        (os.open_file (get_config_file_full_name site.node) site.world.files) _
        λ opened. then_written-Started opened (
          os.write (get_config_file_full_name opened.node)
            (build_node_config_file_data defaults opened.node) opened.world.files)

  pub start-Started :
      (mode : StartMode) (site : Site Files) → Started site (start os defaults mode site)
  unfolding start
  start-Started mode site =
      then_files-Started site _ (deleted os defaults mode site.node site.world.files) _ λ cleared.
        then_files-Started cleared _
          (delete_config_file os defaults cleared.node cleared.world.files) _
          λ removed. create_config_file-Started removed
