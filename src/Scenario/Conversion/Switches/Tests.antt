-- ===== src/Scenario/Conversion/Switches/Tests.antt =====
-- Runs of the conversion of the starts and stops of nodes.
use idena_test_go.Prelude.{◌≡◌, refl, List, [], ◌∷◌, true, false, codes, ◌++◌}
use mathlib.Core.List.{flat_map}
use idena_test_go.Prelude.Int.{ℤ, pos}
use idena_test_go.Prelude.Dict.{Dict}
use idena_test_go.Prelude.Result.{ok, ◌>>=◌}
use idena_test_go.Scenario.Incoming.{EpochsNodes, DelayedEpochsNodes}
use idena_test_go.Scenario.Model.{NodeSwitch}
use idena_test_go.Scenario.Nums.{parse_nums}
use idena_test_go.Scenario.Conversion.Loops.{get_or}
use idena_test_go.Scenario.Conversion.Switches.{convert_node_switches}
use idena_test_go.Scenario.Conversion.Switches.Entries.{entry, convert_node_switches_lem}
use idena_test_go.Scenario.Conversion.Switches.Entries
use idena_test_go.Scenario.Conversion.Switches.Order.{IsSorted, at_delay}

abbrev two_epochs : EpochsNodes
two_epochs = record { epochs = codes "1-2"; nodes = codes "0,3"; only_god_mode = false }

abbrev god_epoch : EpochsNodes
god_epoch = record { epochs = codes "2"; nodes = codes "3"; only_god_mode = true }

abbrev some_starts : List DelayedEpochsNodes
some_starts =
    record { epochs_nodes = god_epoch; delay_sec = pos 9 }
    ∷ record { epochs_nodes = two_epochs; delay_sec = pos 4 }
    ∷ []

abbrev some_stops : List DelayedEpochsNodes
some_stops = record { epochs_nodes = god_epoch; delay_sec = pos 6 } ∷ []

convert_node_switches_lem_example :
    (m : Dict (Dict (List NodeSwitch))) × (convert_node_switches some_starts some_stops ≡ ok m)
    × ((e n : ℤ)
        → IsSorted (entry e n m)
          × ((d : ℤ)
              → at_delay d (entry e n m)
                ≡ at_delay d (
                    flat_map (Entries.part_of e n true) some_starts
                    ++ flat_map (Entries.part_of e n false) some_stops)))
unfolding parse_nums
convert_node_switches_lem_example =
    convert_node_switches_lem some_starts some_stops ((refl, refl), ((refl, refl), tt))
      ((refl, refl), tt)

-- The start after 4 seconds, the stop after 6 and the start after 9, in this order.
test_node_switches :
    (convert_node_switches some_starts some_stops >>= λ m. ok (entry (pos 2) (pos 3) m))
    ≡ ok (
        record { is_start = true; delay = pos 4_000_000_000 }
        ∷ record { is_start = false; delay = pos 6_000_000_000 }
        ∷ record { is_start = true; delay = pos 9_000_000_000 }
        ∷ [])
unfolding convert_node_switches get_or
test_node_switches = refl
