-- ===== src/Scenario/Conversion/Switches/Entries.antt =====
-- scenario/conversion.go: what the map of the starts and stops holds for an epoch and a node.
use idena_test_go.Prelude.{
  ◌≡◌, refl, sym, ap, ◌∙◌, Bool, true, false, List, [], ◌∷◌, ◌++◌, append_assoc, append-nil, Option,
  none, some, arith, All, if◌then◌else◌, Bool-cases, inl, inr,
}
use mathlib.Core.List.{flat_map}
use idena_test_go.Prelude.Int.{ℤ, ◌==ℤ◌, ==ℤ_iff}
use idena_test_go.Prelude.Dict.{Dict, lookup, insert}
use idena_test_go.Prelude.Result.{ok, each_with}
use idena_test_go.Scenario.Incoming.{DelayedEpochsNodes}
use idena_test_go.Scenario.Model.{NodeSwitch}
use idena_test_go.Scenario.Nums.Pieces.{numbers_of}
use idena_test_go.Scenario.Counts.{ignore_error}
use idena_test_go.Scenario.Validation.Accepted.{IsReadable}
use idena_test_go.Scenario.Conversion.Loops.{
  over, over_pairs, each_with_lem, get_or, update, get_or-update, get_or-insert,
}
use idena_test_go.Scenario.Conversion.Epochs.Appends.{for_each}
use idena_test_go.Scenario.Conversion.Switches.{
  insert_switch, sort_stable, add_switch, switch_of, add_switches, convert_node_switches,
}
use idena_test_go.Scenario.Conversion.Switches.Order.{
  IsSorted, at_delay, sort_stable-IsSorted, at_delay-sort_stable, sort_stable_again,
}

abbrev nodes_of : Option (Dict (List NodeSwitch)) → Dict (List NodeSwitch)
nodes_of none = []
nodes_of (some d) = d

-- The nodes of the epoch, from what the map holds for it.
abbrev changed : NodeSwitch → ℤ → Option (Dict (List NodeSwitch)) → Dict (List NodeSwitch)
changed s n' o =
    let appended = insert n' (get_or [] n' (nodes_of o) ++ s ∷ []) (nodes_of o) in
    elim o [ none ↦ appended | some _ ↦ update [] sort_stable n' appended ]

nil_entry : (n : ℤ) → get_or {V = List NodeSwitch} [] n [] ≡ []
unfolding get_or lookup
nil_entry n = refl

sort_one :
    (b : Bool) (s : NodeSwitch) (l xs : List NodeSwitch)
    → l ≡ sort_stable xs
    → (if b then sort_stable (l ++ s ∷ []) else l) ≡ sort_stable (xs ++ (if b then s ∷ [] else []))
sort_one true s l xs h = ap (λ l'. sort_stable (l' ++ s ∷ [])) h ∙ sort_stable_again xs (s ∷ [])
sort_one false s l xs h = h ∙ ap sort_stable (sym (append-nil xs))

abbrev run :
    Bool → DelayedEpochsNodes → Dict (Dict (List NodeSwitch)) → Dict (Dict (List NodeSwitch))
run is_start item =
    over_pairs (add_switch (switch_of is_start item)) (numbers_of item.epochs_nodes.epochs)
      (numbers_of item.epochs_nodes.nodes)

module _ (e n : ℤ) where
  -- The switches of the epoch and the node.
  abbrev pub entry : Dict (Dict (List NodeSwitch)) → List NodeSwitch
  entry m = get_or [] n (get_or [] e m)

  -- An entry that is some switches in their order.
  abbrev Holds : Dict (Dict (List NodeSwitch)) → List NodeSwitch → Type 0
  Holds m xs = entry m ≡ sort_stable xs

  abbrev one : NodeSwitch → ℤ → ℤ → List NodeSwitch
  one s e' n' = if e' ==ℤ e then (if n' ==ℤ n then s ∷ [] else []) else []

  over-Holds :
      {A : Type 0} (f : A → Dict (Dict (List NodeSwitch)) → Dict (Dict (List NodeSwitch)))
      (part : A → List NodeSwitch)
      → ((a : A) (m : Dict (Dict (List NodeSwitch))) (xs : List NodeSwitch)
          → Holds m xs
          → Holds (f a m) (xs ++ part a))
      → (as' : List A) (m : Dict (Dict (List NodeSwitch))) (xs : List NodeSwitch) → Holds m xs
      → Holds (over f as' m) (xs ++ flat_map part as')
  unfolding flat_map
  over-Holds f part h [] m xs holds = holds ∙ ap sort_stable (sym (append-nil xs))
  over-Holds f part h (a ∷ as') m xs holds =
      over-Holds f part h as' (f a m) (xs ++ part a) (h a m xs holds)
      ∙ ap sort_stable (append_assoc xs (part a) (flat_map part as'))

  same_part :
      (s : NodeSwitch) (e' : ℤ) (nodes : List ℤ)
      → flat_map (one s e') nodes ≡ (if e' ==ℤ e then for_each n nodes (s ∷ []) else [])
  unfolding flat_map
  same_part s e' [] = ground arith
  same_part s e' (n' ∷ nodes) = ground (arith, same_part s e' nodes)

  entry-changed :
      (s : NodeSwitch) (n' : ℤ) (o : Option (Dict (List NodeSwitch)))
      → get_or [] n (changed s n' o) ≡ (
          if n' ==ℤ n
          then sort_stable (get_or [] n (nodes_of o) ++ s ∷ [])
          else get_or [] n (nodes_of o))
  unfolding sort_stable insert_switch
  entry-changed s n' none =
      ground
        (arith, get_or-insert [] (get_or [] n' [] ++ s ∷ []) n' n [], ==ℤ_iff n' n, nil_entry n)
  entry-changed s n' (some d) =
      let appended = insert n' (get_or [] n' d ++ s ∷ []) d in
      ground (
        arith,
        get_or-update [] sort_stable n' n appended,
        get_or-insert [] (get_or [] n' d ++ s ∷ []) n' n d,
        ==ℤ_iff n' n,
      )

  entry-add_switch :
      (s : NodeSwitch) (e' n' : ℤ) (m : Dict (Dict (List NodeSwitch))) (xs : List NodeSwitch)
      → Holds m xs
      → Holds (add_switch s e' n' m) (xs ++ one s e' n')
  unfolding add_switch get_or
  entry-add_switch s e' n' m xs holds =
      ap (get_or [] n) (get_or-insert [] (changed s n' (lookup e' m)) e' e m)
      ∙ elim (Bool-cases (e' ==ℤ e)) [
        | inl same ↦ rw same (
            ap (λ k. get_or [] n (changed s n' (lookup k m))) ((==ℤ_iff e' e).0 same)
            ∙ entry-changed s n' (lookup e m)
            ∙ sort_one (n' ==ℤ n) s (get_or [] n (nodes_of (lookup e m))) xs holds)
        | inr other ↦ rw other (holds ∙ ap sort_stable (sym (append-nil xs)))
      ]

  -- What an item says of the epoch and the node.
  abbrev pub part_of : Bool → DelayedEpochsNodes → List NodeSwitch
  part_of is_start item =
      for_each e (numbers_of item.epochs_nodes.epochs)
        (for_each n (numbers_of item.epochs_nodes.nodes) (switch_of is_start item ∷ []))

  entry-run :
      (is_start : Bool) (items : List DelayedEpochsNodes) (m : Dict (Dict (List NodeSwitch)))
      (xs : List NodeSwitch)
      → Holds m xs
      → Holds (over (run is_start) items m) (xs ++ flat_map (part_of is_start) items)
  entry-run is_start items m xs holds =
      over-Holds (run is_start) (part_of is_start)
        (λ item m1 xs1.
          let s = switch_of is_start item in
          let nodes = numbers_of item.epochs_nodes.nodes in
          over-Holds (λ e'. over (add_switch s e') nodes)
            (λ e'. if e' ==ℤ e then for_each n nodes (s ∷ []) else [])
            (λ e' m2 xs2 holds2.
              over-Holds (add_switch s e') (one s e') (λ n' m3 xs3. entry-add_switch s e' n' m3 xs3)
                nodes m2 xs2 holds2
              ∙ ap (λ l. sort_stable (xs2 ++ l)) (same_part s e' nodes))
            (numbers_of item.epochs_nodes.epochs) m1 xs1)
        items m xs holds

run_lem :
    (is_start : Bool) (items : List DelayedEpochsNodes)
    → All (λ i. IsReadable i.epochs_nodes) items
    → (m : Dict (Dict (List NodeSwitch)))
    → each_with (add_switches is_start) items m ≡ ok (over (run is_start) items m)
unfolding add_switches ignore_error
run_lem is_start =
    each_with_lem (λ i. IsReadable i.epochs_nodes) (add_switches is_start) (run is_start)
      (λ i r m. rw (r.0, r.1) refl)

-- Starts and stops with readable texts are converted, without an error or a panic, to a map in which
-- the switches of every epoch and node stand in the order of their delays; those of one delay are
-- those of the items for that epoch and node with that delay, the starts before the stops and
-- otherwise in the order of the scenario, once for each time that an item names the two.
pub convert_node_switches_lem :
    (starts stops : List DelayedEpochsNodes)
    → All (λ i. IsReadable i.epochs_nodes) starts
    → All (λ i. IsReadable i.epochs_nodes) stops
    → (m : Dict (Dict (List NodeSwitch))) × (convert_node_switches starts stops ≡ ok m)
      × ((e n : ℤ)
          → IsSorted (entry e n m)
            × ((d : ℤ)
                → at_delay d (entry e n m)
                  ≡ at_delay d
                      (flat_map (part_of e n true) starts ++ flat_map (part_of e n false) stops)))
unfolding convert_node_switches get_or sort_stable
convert_node_switches_lem starts stops h k =
    let started = over (run true) starts [] in
    let all : ℤ → ℤ → List NodeSwitch =
      λ e n. flat_map (part_of e n true) starts ++ flat_map (part_of e n false) stops in
    let sorted : (e n : ℤ) → entry e n (over (run false) stops started) ≡ sort_stable (all e n) =
      λ e n.
        entry-run e n false stops started (flat_map (part_of e n true) starts)
          (entry-run e n true starts [] [] refl) in
    (
      over (run false) stops started,
      rw (run_lem true starts h []) (run_lem false stops k started),
      λ e n. (
        rw (sorted e n) (sort_stable-IsSorted (all e n)),
        λ d. ap (at_delay d) (sorted e n) ∙ at_delay-sort_stable d (all e n),
      ),
    )
