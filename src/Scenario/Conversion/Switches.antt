-- ===== src/Scenario/Conversion/Switches.antt =====
-- scenario/conversion.go: the starts and stops of nodes, in the order of their delays.
mod Tests
pub mod Order
pub mod Entries
use idena_test_go.Prelude.{
  Bool, true, false, Option, none, some, List, [], ◌∷◌, ◌++◌, if◌then◌else◌,
}
use idena_test_go.Prelude.Int.{ℤ, ltb_ℤ}
use idena_test_go.Prelude.Dict.{Dict, lookup, insert}
use idena_test_go.Prelude.Result.{Result, ok, ◌>>=◌, each_with}
use idena_test_go.Scenario.Incoming.{DelayedEpochsNodes}
use idena_test_go.Scenario.Model.{NodeSwitch}
use idena_test_go.Scenario.Nums.{parse_nums}
use idena_test_go.Scenario.Counts.{ignore_error}
use idena_test_go.Scenario.Conversion.Loops.{numbers, over_pairs, seconds, get_or, update}

-- `sort.SliceStable` with `Delay` less than `Delay`: an element goes in front of the first one that is
-- not less than it.
pub insert_switch : NodeSwitch → List NodeSwitch → List NodeSwitch
insert_switch x [] = x ∷ []
insert_switch x (y ∷ ys) =
    let rest = insert_switch x ys in if ltb_ℤ y.delay x.delay then y ∷ rest else x ∷ y ∷ ys

unfoldable pub sort_stable : List NodeSwitch → List NodeSwitch
unfolding insert_switch
sort_stable [] = []
sort_stable (x ∷ xs) = insert_switch x (sort_stable xs)

-- The body of the loops. The sort reads the map that was found before the append: where the epoch has
-- no map yet it sorts a list of the nil map, which is no list of the result.
pub add_switch : NodeSwitch → ℤ → ℤ → Dict (Dict (List NodeSwitch)) → Dict (Dict (List NodeSwitch))
unfolding update get_or insert lookup sort_stable
add_switch s epoch node m =
    let appended = insert node (get_or [] node (get_or [] epoch m) ++ s ∷ []) (get_or [] epoch m) in
    insert epoch
      (elim (lookup epoch m) [ none ↦ appended | some _ ↦ update [] sort_stable node appended ]) m

abbrev pub switch_of : Bool → DelayedEpochsNodes → NodeSwitch
switch_of is_start item = record { is_start = is_start; delay = seconds item.delay_sec }

pub add_switches :
    Bool
    → DelayedEpochsNodes
    → Dict (Dict (List NodeSwitch))
    → Result (Dict (Dict (List NodeSwitch)))
unfolding add_switch ignore_error parse_nums seconds
add_switches is_start item m = do
  epochs ← numbers item.epochs_nodes.epochs
  nodes ← numbers item.epochs_nodes.nodes
  ok (over_pairs (add_switch (switch_of is_start item)) epochs nodes m)

unfoldable pub convert_node_switches :
    List DelayedEpochsNodes → List DelayedEpochsNodes → Result (Dict (Dict (List NodeSwitch)))
unfolding add_switches
convert_node_switches starts stops = do
  m ← each_with (add_switches true) starts []
  each_with (add_switches false) stops m
