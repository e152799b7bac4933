-- ===== src/User/Started.antt =====
-- user/user.go: a user with its own node: how it is started and stopped, and its address.
pub mod Active
use idena_test_go.Prelude.{
  ℕ, Bool, true, false, List, [], ◌∷◌, ◌++◌, Option, none, some, Bytes, codes, if◌then◌else◌,
}
use idena_test_go.Prelude.Int.{ℤ}
use idena_test_go.Prelude.Decimal.{itoa}
use idena_test_go.Prelude.Result.{Result, ok, err, panic, client_error, or_error, ◌>>=◌}
use idena_test_go.Node.{Node, StartMode}
use idena_test_go.Node.Setup.{Defaults}
use idena_test_go.Node.Runs.{
  Os, Site, start, destroy, update_node_parameters, set_exec_command_name,
}

-- `user`, with its node in its world.
pub record OwnUser (Files : Type 0) : Type 0 where
  pub index : ℕ
  pub address : Bytes
  pub pub_key : Bytes
  pub active : Bool
  pub sent_auto_online : Bool
  pub multi_bot_delegatee : Option Bytes
  pub is_test_run : Bool
  pub site : Site Files

-- `NewUser` without a parent
unfoldable pub new_user : {Files : Type 0} → Site Files → ℕ → OwnUser Files
new_user site index = record {
  index = index;
  address = [];
  pub_key = [];
  active = false;
  sent_auto_online = false;
  multi_bot_delegatee = none;
  is_test_run = false;
  site = site;
}

-- `GetInfo`
unfoldable pub get_info : {Files : Type 0} → OwnUser Files → Bytes
unfolding itoa
get_info u = codes "[User " ++ (itoa u.index ++ b'-' ∷ (itoa u.site.node.rpc_port ++ codes "]"))

-- `waitForSync`, by the answer of `CheckSyncing`: whether the node is syncing, or none for an error. The loop
-- returns in its first round, also when the node is syncing.
unfoldable pub wait_for_sync : Option Bool → Result (Unit {0})
wait_for_sync none = err client_error
wait_for_sync (some syncing) = ok tt

module _ {Files : Type 0} (os : Os Files) (defaults : Defaults) where
  abbrev pub with_site : OwnUser Files → Site Files → OwnUser Files
  with_site u site = record u { site = site }

  -- The user is active where nothing has failed.
  abbrev pub activated : OwnUser Files → Result (Unit {0}) → OwnUser Files × Result (Unit {0})
  activated u (ok done) = (record u { active = true }, ok done)
  activated u (err e) = (u, err e)
  activated u (panic x) = (u, panic x)

  -- `Start`
  unfoldable pub start_user :
      StartMode → (syncing : Option Bool) → OwnUser Files → OwnUser Files × Result (Unit {0})
  unfolding start wait_for_sync
  start_user mode syncing u =
      let (site, end) = start os defaults mode u.site in
      activated (with_site u site) (end >>= (λ done. wait_for_sync syncing))

  -- `Stop`
  unfoldable pub stop_user : OwnUser Files → OwnUser Files × Result (Unit {0})
  unfolding destroy
  stop_user u =
      let (site, end) = destroy os defaults u.site in
      (record u { active = false; site = site }, end)

  -- `DestroyNode`
  unfoldable pub destroy_node : OwnUser Files → OwnUser Files × Result (Unit {0})
  unfolding destroy
  destroy_node u = let (site, end) = destroy os defaults u.site in (with_site u site, end)

  abbrev pub with_node : OwnUser Files → Node → OwnUser Files
  with_node u node = record u { site = record u.site { node = node } }

  -- `UpdateNodeParameters`
  unfoldable pub update_parameters :
      (god_address ipfs_boot_node : Bytes) → ℤ → OwnUser Files → OwnUser Files
  unfolding update_node_parameters
  update_parameters god_address ipfs_boot_node time u =
      with_node u (update_node_parameters god_address ipfs_boot_node time u.site.node)

  -- `SetNodeExecCommandName`
  unfoldable pub set_node_exec_command_name : Bytes → OwnUser Files → OwnUser Files
  unfolding set_exec_command_name
  set_node_exec_command_name command u = with_node u (set_exec_command_name command u.site.node)

-- `InitAddress`, by what the node answers.
unfoldable pub init_address :
    {Files : Type 0} → Option Bytes → OwnUser Files → OwnUser Files × Result (Unit {0})
init_address none u = (u, err client_error)
init_address (some address) u = (record u { address = address }, ok tt)

-- `InitPubKey`
unfoldable pub init_pub_key :
    {Files : Type 0} → Option Bytes → OwnUser Files → OwnUser Files × Result (Unit {0})
init_pub_key none u = (u, err client_error)
init_pub_key (some key) u = (record u { pub_key = key }, ok tt)
