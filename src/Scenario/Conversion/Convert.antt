-- ===== src/Scenario/Conversion/Convert.antt =====
-- scenario/conversion.go: `convert`; scenario/load.go: `Load`, after the file is read.
use idena_test_go.Prelude.{ℕ, Bool, Option, none, some, if◌then◌else◌}
use idena_test_go.Prelude.Int.{ℤ, pos, leb_ℤ}
use idena_test_go.Prelude.Float.{Float}
use idena_test_go.Prelude.Result.{Result, ok, ◌>>=◌, ◌>>◌, or_panic}
use idena_test_go.Scenario.Incoming.{IncomingScenario}
use idena_test_go.Scenario.Incoming
use idena_test_go.Scenario.Model
use idena_test_go.Scenario.Validation.{validate}
use idena_test_go.Scenario.Conversion.Epochs.{
  convert_epoch_new_users, convert_epochs_nodes, convert_epoch_txs, convert_node_updates,
  convert_delegations, convert_add_stakes, convert_kill_delegators, convert_kill_invitees,
  convert_store_to_ipfs_txs,
}
use idena_test_go.Scenario.Conversion.Switches.{convert_node_switches}
use idena_test_go.Scenario.Conversion.Ceremonies.{convert_default_answer, convert_ceremonies}

module _ {G : Type 0} where
  pub convert_multi_bot_pools : Option (Incoming.MultiBotPools G) → Option (Model.MultiBotPools G)
  convert_multi_bot_pools none = none
  convert_multi_bot_pools (some p) =
      some (record { sizes = p.sizes; bot_delegators_rate = p.bot_delegators_rate })

module _ {F : Type 0} where
  -- `default_amount` is 100 as a float32.
  pub convert_invite_amount : F → Option F → F
  convert_invite_amount default_amount none = default_amount
  convert_invite_amount default_amount (some amount) = amount

-- The number of users: that of the command line, where it is positive.
pub with_nodes : {F G : Type 0} → IncomingScenario F G → ℤ → IncomingScenario F G
with_nodes sc nodes = record sc { users = if leb_ℤ nodes (pos 0) then sc.users else nodes }

-- The steps of `convert`, in their order; `address` is that of the variable `inviter`.
convert_parts : {F G : Type 0} → F → ℕ → Bool → IncomingScenario F G → Result (Model.Scenario F G)
unfolding convert_epoch_new_users convert_epochs_nodes convert_epoch_txs convert_node_updates
    convert_delegations convert_add_stakes convert_kill_delegators convert_kill_invitees
    convert_store_to_ipfs_txs convert_node_switches convert_default_answer convert_ceremonies
    convert_multi_bot_pools convert_invite_amount
convert_parts default_amount address god_mode sc = do
  before_flips ← convert_epoch_new_users address sc.users sc.new_users
  after_flips ← convert_epoch_new_users address (pos 0) sc.new_users_after_flips
  node_switches ← convert_node_switches sc.node_starts sc.node_stops
  node_onlines ← convert_epochs_nodes sc.node_onlines
  node_offlines ← convert_epochs_nodes sc.node_offlines
  delayed_flip_keys ← convert_epochs_nodes sc.delayed_keys
  txs ← convert_epoch_txs sc.txs
  ceremonies ← convert_ceremonies sc.ceremonies
  node_updates ← convert_node_updates sc.node_updates
  delegations ← convert_delegations sc.delegations
  add_stakes ← convert_add_stakes sc.add_stakes
  undelegations ← convert_epochs_nodes sc.undelegations
  kill_delegators ← convert_kill_delegators sc.kill_delegators
  kill_invitees ← convert_kill_invitees sc.kill_invitees
  store_to_ipfs_txs ← convert_store_to_ipfs_txs sc.store_to_ipfs_txs god_mode
  kills ← convert_epochs_nodes sc.kills
  ok (record {
    invite_amount = convert_invite_amount default_amount sc.invite_amount;
    epoch_new_users_before_flips = before_flips;
    epoch_new_users_after_flips = after_flips;
    epoch_node_switches = node_switches;
    epoch_node_onlines = node_onlines;
    epoch_node_offlines = node_offlines;
    epoch_txs = txs;
    epoch_delayed_flip_keys = delayed_flip_keys;
    ceremony_min_offset = sc.ceremony_min_offset;
    default_answer = convert_default_answer sc.default_answer;
    ceremonies = ceremonies;
    epoch_node_updates = node_updates;
    delegations = delegations;
    add_stakes = add_stakes;
    undelegations = undelegations;
    kill_delegators = kill_delegators;
    kill_invitees = kill_invitees;
    multi_bot_pools = convert_multi_bot_pools sc.multi_bot_pools;
    store_to_ipfs_txs = store_to_ipfs_txs;
    kills = kills;
  })

unfoldable pub convert :
    {F G : Type 0} → F → ℕ → IncomingScenario F G → Bool → ℤ → Result (Model.Scenario F G)
unfolding convert_parts with_nodes
convert default_amount address sc god_mode nodes =
    convert_parts default_amount address god_mode (with_nodes sc nodes)

unfoldable pub load :
    {F G : Type 0} ⦃float : Float F⦄
    → F
    → ℕ
    → IncomingScenario F G
    → Bool
    → ℤ
    → Result (Model.Scenario F G)
unfolding convert
load default_amount address sc god_mode nodes = do
  or_panic (validate sc)
  convert default_amount address sc god_mode nodes
