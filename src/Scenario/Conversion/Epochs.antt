-- ===== src/Scenario/Conversion/Epochs.antt =====
-- scenario/conversion.go: the parts that are lists of numbers by epoch, or values by epoch and node.
pub mod Pairs
pub mod Updates
pub mod Appends
pub mod Periods
use idena_test_go.Prelude.{
  ℕ, Bool, true, false, ◌&&◌, not, List, [], ◌∷◌, ◌++◌, Option, none, some, Bytes, String,
  if◌then◌else◌,
}
use idena_test_go.Prelude.Int.{ℤ, pos, leb_ℤ, ◌+ℤ◌, wrap64}
use idena_test_go.Prelude.Dict.{Dict, lookup, insert}
use idena_test_go.Prelude.Result.{Result, ok, err, panic, ◌>>=◌, each_with, or_panic}
use idena_test_go.Scenario.Incoming.{
  Ref, EpochsNodes, Transactions, NodeUpdates, Delegations, AddStakes, KillDelegators, KillInvitees,
}
use idena_test_go.Scenario.Incoming
use idena_test_go.Scenario.Model
use idena_test_go.Scenario.Model.{Txs, NodeUpdate}
use idena_test_go.Scenario.Nums.{parse_nums}
use idena_test_go.Scenario.Counts.{ignore_error}
use idena_test_go.Scenario.Conversion.Loops.{
  numbers, numbers_or_panic, over, over_pairs, seconds, milliseconds, get_or, update, put_pair,
}

-- `epochsNodes[epoch] = append(epochsNodes[epoch], node)`
abbrev append_node : ℤ → ℤ → Dict (List ℤ) → Dict (List ℤ)
append_node epoch node = update [] (λ nodes. nodes ++ node ∷ []) epoch

pub add_epochs_nodes : EpochsNodes → Dict (List ℤ) → Result (Dict (List ℤ))
unfolding ignore_error parse_nums update
add_epochs_nodes en m = do
  epochs ← numbers en.epochs
  nodes ← numbers en.nodes
  ok (over_pairs append_node epochs nodes m)

unfoldable pub convert_epochs_nodes : List EpochsNodes → Result (Dict (List ℤ))
unfolding add_epochs_nodes
convert_epochs_nodes ens = each_with add_epochs_nodes ens []

-- The period is that of the item that creates the entry of the epoch.
abbrev pub add_tx_user : ℤ → ℤ → ℤ → Dict Txs → Dict Txs
add_tx_user period_ms epoch node =
    update (record { period = milliseconds period_ms; users = [] })
      (λ t. record t { users = t.users ++ node ∷ [] }) epoch

pub add_txs : Transactions → Dict Txs → Result (Dict Txs)
unfolding ignore_error parse_nums update milliseconds
add_txs tx m = do
  epochs ← numbers tx.epochs_nodes.epochs
  nodes ← numbers tx.epochs_nodes.nodes
  ok (over_pairs (add_tx_user tx.period_ms) epochs nodes m)

unfoldable pub convert_epoch_txs : List Transactions → Result (Dict Txs)
unfolding add_txs
convert_epoch_txs txs = each_with add_txs txs []

-- The loop over the nodes of one epoch: every node waits one step longer than the one before it.
pub update_nodes : String → ℤ → ℤ → List ℤ → ℤ → Dict (Dict NodeUpdate) → Dict (Dict NodeUpdate)
unfolding put_pair wrap64 ◌+ℤ◌
update_nodes command step epoch [] delay m = m
update_nodes command step epoch (node ∷ nodes) delay m =
    let delay' = wrap64 (delay +ℤ step) in
    update_nodes command step epoch nodes delay'
      (put_pair epoch node (record { command = command; delay = delay' }) m)

pub add_node_updates : NodeUpdates → Dict (Dict NodeUpdate) → Result (Dict (Dict NodeUpdate))
unfolding ignore_error parse_nums update_nodes seconds
add_node_updates u m = do
  epochs ← numbers u.delayed.epochs_nodes.epochs
  nodes ← numbers u.delayed.epochs_nodes.nodes
  ok (
      over
        (λ epoch.
          update_nodes u.command (seconds u.step_delay_sec) epoch nodes
            (seconds u.delayed.delay_sec))
        epochs m)

unfoldable pub convert_node_updates : List NodeUpdates → Result (Dict (Dict NodeUpdate))
unfolding add_node_updates
convert_node_updates us = each_with add_node_updates us []

pub add_delegations : Delegations → Dict (Dict ℤ) → Result (Dict (Dict ℤ))
unfolding parse_nums put_pair
add_delegations d m = do
  epochs ← numbers_or_panic d.epochs_nodes.epochs
  nodes ← numbers_or_panic d.epochs_nodes.nodes
  ok (over_pairs (λ epoch node. put_pair epoch node d.delegatee) epochs nodes m)

unfoldable pub convert_delegations : List Delegations → Result (Dict (Dict ℤ))
unfolding add_delegations
convert_delegations ds = each_with add_delegations ds []

module _ {F : Type 0} where
  pub add_add_stakes : AddStakes F → Dict (Dict F) → Result (Dict (Dict F))
  unfolding parse_nums put_pair
  add_add_stakes s m = do
    epochs ← numbers_or_panic s.epochs_nodes.epochs
    nodes ← numbers_or_panic s.epochs_nodes.nodes
    ok (over_pairs (λ epoch node. put_pair epoch node s.amount) epochs nodes m)

  unfoldable pub convert_add_stakes : List (AddStakes F) → Result (Dict (Dict F))
  unfolding add_add_stakes
  convert_add_stakes ss = each_with add_add_stakes ss []

-- `result[epoch][key] = append(result[epoch][key], nodes...)`, in a map made for the epoch if needed.
abbrev append_nodes : ℤ → List ℤ → ℤ → Dict (Dict (List ℤ)) → Dict (Dict (List ℤ))
append_nodes key nodes = update [] (update [] (λ ns. ns ++ nodes) key)

pub add_kill_delegators : KillDelegators → Dict (Dict (List ℤ)) → Result (Dict (Dict (List ℤ)))
unfolding parse_nums update
add_kill_delegators k m = do
  epochs ← numbers_or_panic k.epochs_nodes.epochs
  nodes ← numbers_or_panic k.epochs_nodes.nodes
  ok (over (append_nodes k.delegatee nodes) epochs m)

unfoldable pub convert_kill_delegators : List KillDelegators → Result (Dict (Dict (List ℤ)))
unfolding add_kill_delegators
convert_kill_delegators ks = each_with add_kill_delegators ks []

pub add_kill_invitees : KillInvitees → Dict (Dict (List ℤ)) → Result (Dict (Dict (List ℤ)))
unfolding parse_nums update
add_kill_invitees k m = do
  epochs ← numbers_or_panic k.epochs_nodes.epochs
  nodes ← numbers_or_panic k.epochs_nodes.nodes
  ok (over (append_nodes k.inviter nodes) epochs m)

unfoldable pub convert_kill_invitees : List KillInvitees → Result (Dict (Dict (List ℤ)))
unfolding add_kill_invitees
convert_kill_invitees ks = each_with add_kill_invitees ks []

abbrev pub store_of : Incoming.StoreToIpfsTxs → Model.StoreToIpfsTxs
store_of item = record {
  sizes = item.sizes;
  delay = seconds item.delayed.delay_sec;
  step_delay = seconds item.step_delay_sec;
}

-- An item for the god mode is skipped where the bot is in another mode.
pub add_store_to_ipfs_txs :
    Bool
    → Incoming.StoreToIpfsTxs
    → Dict (Dict Model.StoreToIpfsTxs)
    → Result (Dict (Dict Model.StoreToIpfsTxs))
unfolding ignore_error parse_nums put_pair seconds
add_store_to_ipfs_txs god_mode item m = do
  epochs ← numbers item.delayed.epochs_nodes.epochs
  nodes ← numbers item.delayed.epochs_nodes.nodes
  ok (
      if item.delayed.epochs_nodes.only_god_mode && not god_mode
      then m
      else over_pairs (λ epoch node. put_pair epoch node (store_of item)) epochs nodes m)

unfoldable pub convert_store_to_ipfs_txs :
    List Incoming.StoreToIpfsTxs → Bool → Result (Dict (Dict Model.StoreToIpfsTxs))
unfolding add_store_to_ipfs_txs
convert_store_to_ipfs_txs items god_mode = each_with (add_store_to_ipfs_txs god_mode) items []

-- New users, and those that the scenario starts with: in epoch 0, invited by user 0.
module _ {F : Type 0} where
  abbrev pub new_users_of : Incoming.NewUsers F → Model.NewUsers F
  new_users_of du = record {
    count = du.count;
    inviter = du.inviter;
    command = du.command;
    shared_node = du.shared_node;
    invite_amount = du.invite_amount;
  }

  pub add_new_users :
      Incoming.NewUsers F → Dict (List (Model.NewUsers F)) → Result (Dict (List (Model.NewUsers F)))
  unfolding ignore_error parse_nums update
  add_new_users du m = do
    epochs ← numbers du.epochs
    ok (over (update [] (λ us. us ++ new_users_of du ∷ [])) epochs m)

  -- The address of the local variable `inviter`.
  abbrev pub first_new_users : ℕ → ℤ → List (Model.NewUsers F)
  first_new_users address count =
      record {
        count = count;
        inviter = some (record { address = address; target = pos 0 });
        command = "";
        shared_node = none;
        invite_amount = none;
      }
      ∷ []

  unfoldable pub convert_epoch_new_users :
      ℕ → ℤ → List (Incoming.NewUsers F) → Result (Dict (List (Model.NewUsers F)))
  unfolding add_new_users
  convert_epoch_new_users address users dus =
      each_with add_new_users dus
        (if leb_ℤ users (pos 0) then [] else (pos 0, first_new_users address users) ∷ [])
