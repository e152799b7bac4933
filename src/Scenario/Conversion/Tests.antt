-- ===== src/Scenario/Conversion/Tests.antt =====
-- Runs of the conversion on small scenarios.
use idena_test_go.Prelude.{◌≡◌, refl, List, [], ◌∷◌, true, false, codes}
use idena_test_go.Prelude.Int.{pos}
use idena_test_go.Prelude.Result.{ok, panic, raised, bad_number}
use idena_test_go.Scenario.Incoming.{EpochsNodes, NodeUpdates, Delegations}
use idena_test_go.Scenario.Conversion.Epochs.{
  convert_delegations, convert_epochs_nodes, convert_node_updates,
}

abbrev two_epochs : EpochsNodes
two_epochs = record { epochs = codes "1-2"; nodes = codes "0,3"; only_god_mode = false }

abbrev god_epoch : EpochsNodes
god_epoch = record { epochs = codes "2"; nodes = codes "3"; only_god_mode = true }

abbrev some_delegations : List Delegations
some_delegations =
    record { epochs_nodes = two_epochs; delegatee = pos 7 }
    ∷ record { epochs_nodes = god_epoch; delegatee = pos 8 }
    ∷ []

test_delegations :
    convert_delegations some_delegations
    ≡ ok (
        (pos 1, (pos 0, pos 7) ∷ (pos 3, pos 7) ∷ [])
        ∷ (pos 2, (pos 0, pos 7) ∷ (pos 3, pos 8) ∷ [])
        ∷ [])
unfolding convert_delegations
test_delegations = refl

-- A text that is no list of numbers is a panic.
test_delegations_bad :
    convert_delegations (
      record {
        epochs_nodes = record { epochs = codes "x"; nodes = codes "1"; only_god_mode = false };
        delegatee = pos 0;
      }
      ∷ [])
    ≡ panic (raised bad_number)
unfolding convert_delegations
test_delegations_bad = refl

test_epochs_nodes :
    convert_epochs_nodes (two_epochs ∷ god_epoch ∷ [])
    ≡ ok ((pos 1, pos 0 ∷ pos 3 ∷ []) ∷ (pos 2, pos 0 ∷ pos 3 ∷ pos 3 ∷ []) ∷ [])
unfolding convert_epochs_nodes
test_epochs_nodes = refl

abbrev some_updates : List NodeUpdates
some_updates =
    record {
      delayed = record { epochs_nodes = two_epochs; delay_sec = pos 5 };
      step_delay_sec = pos 2;
      command = "run";
    }
    ∷ []

-- The delays of the nodes 0 and 3 of one epoch are 7 and 9 seconds.
test_node_updates :
    convert_node_updates some_updates
    ≡ ok (
        (
          pos 1,
          (pos 0, record { command = "run"; delay = pos 7_000_000_000 })
              ∷ (pos 3, record { command = "run"; delay = pos 9_000_000_000 })
              ∷ [],
        )
        ∷ (
          pos 2,
          (pos 0, record { command = "run"; delay = pos 7_000_000_000 })
              ∷ (pos 3, record { command = "run"; delay = pos 9_000_000_000 })
              ∷ [],
        )
        ∷ [])
unfolding convert_node_updates
test_node_updates = refl
