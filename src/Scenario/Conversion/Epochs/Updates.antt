-- ===== src/Scenario/Conversion/Epochs/Updates.antt =====
-- scenario/conversion.go: the delays of the updates of the nodes.
use idena_test_go.Prelude.{
  ◌≡◌, refl, ap, ◌∙◌, ℕ, zero, suc, Bool, ◌&&◌, List, [], ◌∷◌, Option, none, some, arith, All,
  if◌then◌else◌, String,
}
use idena_test_go.Prelude.Int.{ℤ, pos, ◌+ℤ◌, ◌==ℤ◌, wrap64, +ℤ_assoc, wrap64-wrap64_add, +ℤ-zero}
use idena_test_go.Prelude.Dict.{Dict}
use idena_test_go.Prelude.Result.{ok}
use idena_test_go.Scenario.Incoming.{NodeUpdates}
use idena_test_go.Scenario.Model.{NodeUpdate}
use idena_test_go.Scenario.Nums.Pieces.{numbers_of}
use idena_test_go.Scenario.Counts.{ignore_error}
use idena_test_go.Scenario.Validation.Accepted.{IsReadable}
use idena_test_go.Scenario.Conversion.Loops.{
  over, over_lem, each_with_lem, put_pair, lookup_pair, lookup_pair-put_pair, seconds,
}
use idena_test_go.Scenario.Conversion.Epochs.{update_nodes, add_node_updates, convert_node_updates}
use idena_test_go.Scenario.Conversion.Epochs.Pairs.{names, names_pair, last_value}

-- `n` steps of a duration.
abbrev pub steps : ℕ → ℤ → ℤ
steps zero step = pos 0
steps (suc n) step = step +ℤ steps n step

-- The delay of a node whose place in the list is `turn`, from 1, is `delay` and that many steps.
abbrev pub delay_at : ℤ → ℤ → ℕ → ℤ
delay_at delay step turn = wrap64 (delay +ℤ steps turn step)

-- The last place of a node in a list, from 1, or 0 where it is not there.
abbrev pub turn_of : ℤ → List ℤ → ℕ
turn_of n [] = 0
turn_of n (n' ∷ nodes) =
    if names n nodes then suc (turn_of n nodes) else (if n' ==ℤ n then 1 else 0)

delay_at-next :
    (delay step : ℤ) (turn : ℕ)
    → delay_at (wrap64 (delay +ℤ step)) step turn ≡ delay_at delay step (suc turn)
delay_at-next delay step turn =
    wrap64-wrap64_add (delay +ℤ step) (steps turn step)
    ∙ ap wrap64 (+ℤ_assoc delay step (steps turn step))

module _ (e n : ℤ) (command : String) (step : ℤ) where
  lookup_pair-update_nodes :
      (e' : ℤ) (nodes : List ℤ) (delay : ℤ) (m : Dict (Dict NodeUpdate))
      → lookup_pair e n (update_nodes command step e' nodes delay m) ≡ (
          if e' ==ℤ e && names n nodes
          then some (record { command = command; delay = delay_at delay step (turn_of n nodes) })
          else lookup_pair e n m)
  unfolding update_nodes
  lookup_pair-update_nodes e' [] delay m = ground arith
  lookup_pair-update_nodes e' (n' ∷ nodes) delay m =
      let delay' = wrap64 (delay +ℤ step) in
      let put : NodeUpdate = record { command = command; delay = delay' } in
      ground (
        arith,
        lookup_pair-update_nodes e' nodes delay' (put_pair e' n' put m),
        lookup_pair-put_pair e' n' e n put m,
        delay_at-next delay step (turn_of n nodes),
        ap wrap64 (ap (λ d. delay +ℤ d) (+ℤ-zero step)),
      )

over-overwrites :
    {V : Type 0} (e : ℤ) (b : Bool) (v : V) (epochs : List ℤ) (o : Option V)
    → over (λ e' o'. if e' ==ℤ e && b then some v else o') epochs o
      ≡ (if names e epochs && b then some v else o)
over-overwrites e b v [] o = refl
over-overwrites e b v (e' ∷ epochs) o =
    ground (arith, over-overwrites e b v epochs (if e' ==ℤ e && b then some v else o))

-- The update of a node by an item: its delay grows with the node's place in the item's list.
abbrev pub update_of : ℤ → NodeUpdates → NodeUpdate
update_of n u = record {
  command = u.command;
  delay =
      delay_at (seconds u.delayed.delay_sec) (seconds u.step_delay_sec)
        (turn_of n (numbers_of u.delayed.epochs_nodes.nodes));
}

abbrev run : NodeUpdates → Dict (Dict NodeUpdate) → Dict (Dict NodeUpdate)
run u =
    over
      (λ e.
        update_nodes u.command (seconds u.step_delay_sec) e
          (numbers_of u.delayed.epochs_nodes.nodes) (seconds u.delayed.delay_sec))
      (numbers_of u.delayed.epochs_nodes.epochs)

lookup_pair-run :
    (e n : ℤ) (u : NodeUpdates) (m : Dict (Dict NodeUpdate))
    → lookup_pair e n (run u m)
      ≡ (if names_pair e n u.delayed.epochs_nodes then some (update_of n u) else lookup_pair e n m)
lookup_pair-run e n u m =
    let epochs = numbers_of u.delayed.epochs_nodes.epochs in
    let nodes = numbers_of u.delayed.epochs_nodes.nodes in
    let step = seconds u.step_delay_sec in
    let delay = seconds u.delayed.delay_sec in
    over_lem (lookup_pair e n) (λ e'. update_nodes u.command step e' nodes delay)
      (λ e' o. if e' ==ℤ e && names n nodes then some (update_of n u) else o)
      (λ e' s. lookup_pair-update_nodes e n u.command step e' nodes delay s) epochs m
    ∙ over-overwrites e (names n nodes) (update_of n u) epochs (lookup_pair e n m)

-- Updates with readable texts are converted, without an error or a panic, to the map that holds for
-- each epoch and node the update of the last item that names both: its command, and its delay and as
-- many steps as the place of the node in the item's list (its last place, where it is repeated),
-- counted from 1 and reduced to 64 bits, in every epoch alike.
pub convert_node_updates_lem :
    (us : List NodeUpdates)
    → All (λ u. IsReadable u.delayed.epochs_nodes) us
    → (m : Dict (Dict NodeUpdate)) × (convert_node_updates us ≡ ok m)
      × ((e n : ℤ)
          → lookup_pair e n m
            ≡ last_value (λ u. names_pair e n u.delayed.epochs_nodes) (update_of n) us none)
unfolding convert_node_updates add_node_updates ignore_error lookup_pair
convert_node_updates_lem us h = (
  over run us [],
  each_with_lem (λ u. IsReadable u.delayed.epochs_nodes) add_node_updates run
      (λ u r m. rw (r.0, r.1) refl) us h [],
  λ e n.
      over_lem (lookup_pair e n) run
        (λ u o. if names_pair e n u.delayed.epochs_nodes then some (update_of n u) else o)
        (lookup_pair-run e n) us [],
)
