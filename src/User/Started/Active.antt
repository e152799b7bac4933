-- ===== src/User/Started/Active.antt =====
-- user/user.go: an active user has a node that was started and not stopped.
use idena_test_go.Prelude.{
  ℕ, ◌≡◌, refl, ap, ◌∙◌, inl, inr, Bool, true, List, [], ◌∷◌, Option, some, Bytes,
}
use idena_test_go.Prelude.Int.{ℤ}
use idena_test_go.Prelude.Result.{Result, ok, err, panic, ◌>>=◌}
use idena_test_go.Node.{StartMode}
use idena_test_go.Node.Setup.{Defaults}
use idena_test_go.Node.Runs.{Os, Site, start, update_node_parameters, set_exec_command_name}
use idena_test_go.Node.Spawns.{Started, start-Started}
use idena_test_go.User.Started.{
  OwnUser, new_user, wait_for_sync, with_site, activated, start_user, stop_user, update_parameters,
  set_node_exec_command_name,
}

-- What the process does to a user in its tests.
pub data Change : Type 0 where
  starts : StartMode → (syncing : Option Bool) → Change
  stops : Change
  updates : (god_address ipfs_boot_node : Bytes) → ℤ → Change
  renames : Bytes → Change

abbrev pub HasProcess : {Files : Type 0} → Site Files → Type 0
HasProcess site = (pid : ℕ) × (site.node.process ≡ some pid)

-- An active user has a process.
abbrev pub Runs : {Files : Type 0} → OwnUser Files → Type 0
Runs u = u.active ≡ true → HasProcess u.site

module _ {Files : Type 0} (os : Os Files) (defaults : Defaults) where
  unfoldable pub change : Change → OwnUser Files → OwnUser Files
  unfolding start_user stop_user update_parameters set_node_exec_command_name
  change (starts mode syncing) u = (start_user os defaults mode syncing u).0
  change stops u = (stop_user os defaults u).0
  change (updates god_address ipfs_boot_node time) u =
      update_parameters os defaults god_address ipfs_boot_node time u
  change (renames command) u = set_node_exec_command_name os defaults command u

  unfoldable pub changes : List Change → OwnUser Files → OwnUser Files
  unfolding change
  changes [] u = u
  changes (c ∷ rest) u = changes rest (change c u)

  activated-site :
      (u : OwnUser Files) (end : Result (Unit {0})) → (activated os defaults u end).0.site ≡ u.site
  activated-site u (ok done) = refl
  activated-site u (err e) = refl
  activated-site u (panic x) = refl

  -- The process of the user after a start, by what the start of the node has done.
  start_user-Runs :
      (u : OwnUser Files) (site : Site Files) (end : Result (Unit {0})) (syncing : Option Bool)
      → Runs u
      → Started u.site (site, end)
      → Runs
          (activated os defaults
            (with_site os defaults u site)
            (end >>= (λ done. wait_for_sync syncing))).0
  start_user-Runs u site end syncing h (inr (done, new)) active = (
    u.site.world.next,
    ap (λ s. s.node.process)
          (activated-site (with_site os defaults u site) (end >>= (λ done. wait_for_sync syncing)))
        ∙ new.0,
  )
  start_user-Runs u site (ok done) syncing h (inl (e, failed, same)) active = cc
  start_user-Runs u site (panic x) syncing h (inl (e, failed, same)) active = cc
  start_user-Runs u site (err e') syncing h (inl (e, failed, same)) active =
      let (pid, has) = h active in (pid, same.0 ∙ has)

  change-Runs : (c : Change) (u : OwnUser Files) → Runs u → Runs (change c u)
  unfolding change start_user stop_user update_parameters set_node_exec_command_name
      update_node_parameters set_exec_command_name
  change-Runs (starts mode syncing) u h active =
      start_user-Runs u (start os defaults mode u.site).0 (start os defaults mode u.site).1 syncing
        h (start-Started os defaults mode u.site) active
  change-Runs stops u h active = cc
  change-Runs (updates god_address ipfs_boot_node time) u h active = h active
  change-Runs (renames command) u h active = h active

  changes-Runs : (list : List Change) (u : OwnUser Files) → Runs u → Runs (changes list u)
  unfolding changes
  changes-Runs [] u h = h
  changes-Runs (c ∷ rest) u h = changes-Runs rest (change c u) (change-Runs c u h)

  -- Whatever starts, stops and changes a new user sees, with or without errors, its node has a process while
  -- the user is active.
  pub new_user-Runs :
      (list : List Change) (site : Site Files) (index : ℕ)
      → Runs (changes list (new_user site index))
  unfolding new_user
  new_user-Runs list site index = changes-Runs list (new_user site index) (λ active. cc)
