-- ===== src/Process/Start/Restarted.antt =====
-- process/init.go: the god node runs with the configuration of the network when the process goes on.
use idena_test_go.Prelude.{ℕ, ◌≡◌, refl, sym, ap, ◌∙◌, Bool, true, false, Option, none, some, Bytes}
use idena_test_go.Prelude.Int.{ℤ}
use idena_test_go.Prelude.Result.{Result, ok, err, panic, ◌>>=◌, >>=-eq-ok}
use idena_test_go.Node.{Node, StartMode, delete_db}
use idena_test_go.Node.Setup.{
  Defaults, get_config_file_full_name, build_node_config_file_data, build_specific_config,
}
use idena_test_go.Node.Setup.Written.{FileLaws, WritesAll, start-written}
use idena_test_go.Node.Runs.{
  Os, Site, start, kill_if, kill_process, destroy, without_log, update_node_parameters,
}
use idena_test_go.User.Started.{
  OwnUser, start_user, stop_user, activated, with_site, wait_for_sync, update_parameters,
}
use idena_test_go.Process.Start.{must, start_node, stop_node, restart_god_node}

ok_injective : {A : Type 0} (a b : A) → Path (Result A) (ok a) (ok b) → a ≡ b
ok_injective a b e = cc

module _ {Files : Type 0} (os : Os Files) (defaults : Defaults) where
  activated-ok :
      (u after : OwnUser Files) (end : Result (Unit {0}))
      → must (activated os defaults u end) ≡ ok after
      → (end ≡ ok tt) × (after ≡ record u { active = true })
  unfolding must
  activated-ok u after (err e) h = cc
  activated-ok u after (panic x) h = cc
  activated-ok u after (ok done) h = (refl, sym (ok_injective (record u { active = true }) after h))

  synced :
      (end : Result (Unit {0})) (syncing : Option Bool)
      → (end >>= (λ done. wait_for_sync syncing)) ≡ ok tt
      → end ≡ ok tt
  synced (ok done) syncing h = refl
  synced (err e) syncing h = cc
  synced (panic x) syncing h = cc

  -- A start that the process survives.
  pub start_node-written :
      (read : Bytes → Files → Option Bytes) (mode : StartMode) (syncing : Option Bool)
      (u after : OwnUser Files)
      → FileLaws os read
      → WritesAll os
      → start_node os defaults mode syncing u ≡ ok after
      → (after.active ≡ true)
        × (read (get_config_file_full_name u.site.node) after.site.world.files
            ≡ some (build_node_config_file_data defaults u.site.node))
  unfolding start_node start_user
  start_node-written read mode syncing u after laws whole h =
      let (done, same) =
        activated-ok (with_site os defaults u (start os defaults mode u.site).0) after _ h in
      let started = synced (start os defaults mode u.site).1 syncing done in
      (
        ap (λ v. v.active) same,
        ap (λ v. read (get_config_file_full_name u.site.node) v.site.world.files) same
            ∙ start-written os defaults read mode u.site laws whole started,
      )

  -- What a stop changes in a node is not in its configuration.
  abbrev SameConfig : Node → Node → Type 0
  SameConfig a b =
      (god_address ipfs_boot_node : Bytes) (time : ℤ)
      → (get_config_file_full_name (update_node_parameters god_address ipfs_boot_node time a)
          ≡ get_config_file_full_name b)
        × (build_node_config_file_data defaults
              (update_node_parameters god_address ipfs_boot_node time a)
            ≡ build_node_config_file_data defaults
                (update_node_parameters god_address ipfs_boot_node time b))

  kill_process-SameConfig :
      (site : Site Files) (pid : ℕ) (killed : Bool)
      → SameConfig (kill_process os defaults site pid killed).0.node site.node
  unfolding kill_process update_node_parameters get_config_file_full_name
      build_node_config_file_data build_specific_config
  kill_process-SameConfig site pid true g b t = (refl, refl)
  kill_process-SameConfig site pid false g b t = (refl, refl)

  kill_if-SameConfig :
      (site : Site Files) (process : Option ℕ)
      → SameConfig (kill_if os defaults site process).0.node site.node
  unfolding kill_if update_node_parameters get_config_file_full_name build_node_config_file_data
      build_specific_config
  kill_if-SameConfig site none g b t = (refl, refl)
  kill_if-SameConfig site (some pid) g b t = kill_process-SameConfig site pid (os.kills pid) g b t

  destroy-SameConfig : (site : Site Files) → SameConfig (destroy os defaults site).0.node site.node
  unfolding destroy update_node_parameters get_config_file_full_name build_node_config_file_data
      build_specific_config
  destroy-SameConfig site g b t =
      kill_if-SameConfig (without_log os defaults site) site.node.process g b t

  must-ok :
      {A : Type 0} (a after : A) (end : Result (Unit {0})) → must (a, end) ≡ ok after → a ≡ after
  unfolding must
  must-ok a after (ok done) h = ok_injective a after h
  must-ok a after (err e) h = cc
  must-ok a after (panic x) h = cc

  -- When the restart of the god node does not end the process, and no write breaks off, the god user is active,
  -- and the file that its node is started with holds the configuration of the node with the god address, the
  -- boot node and the time of the ceremony that the process found out, and nothing else.
  pub restart_god_node-written :
      (read : Bytes → Files → Option Bytes) (god_address ipfs_boot_node : Bytes) (time : ℤ)
      (syncing : Option Bool) (u after : OwnUser Files)
      → FileLaws os read
      → WritesAll os
      → restart_god_node os defaults god_address ipfs_boot_node time syncing u ≡ ok after
      → (after.active ≡ true)
        × (read (get_config_file_full_name u.site.node) after.site.world.files
            ≡ some (
                build_node_config_file_data defaults
                  (update_node_parameters god_address ipfs_boot_node time u.site.node)))
  unfolding restart_god_node stop_node stop_user update_parameters
  restart_god_node-written read god_address ipfs_boot_node time syncing u after laws whole h =
      let (stopped, e, started) = >>=-eq-ok (stop_node os defaults u) _ h in
      let site = (destroy os defaults u.site).0 in
      let same : record u { active = false; site = site } ≡ stopped =
        must-ok (record u { active = false; site = site }) stopped (destroy os defaults u.site).1
          e in
      let halted : OwnUser Files = record u { active = false; site = site } in
      let begun : start_node os defaults delete_db syncing
            (update_parameters os defaults god_address ipfs_boot_node time halted)
          ≡ ok after =
        ap
          (λ v.
            start_node os defaults delete_db syncing
              (update_parameters os defaults god_address ipfs_boot_node time v))
          same
        ∙ started in
      let (active, written) =
        start_node-written read delete_db syncing
          (update_parameters os defaults god_address ipfs_boot_node time halted) after laws whole
          begun in
      let (name, text) = destroy-SameConfig u.site god_address ipfs_boot_node time in
      (active, ap (λ path. read path after.site.world.files) (sym name) ∙ written ∙ ap some text)
