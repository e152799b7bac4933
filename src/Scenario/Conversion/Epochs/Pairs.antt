-- ===== src/Scenario/Conversion/Epochs/Pairs.antt =====
-- scenario/conversion.go: the maps that hold one value by epoch and node.
use idena_test_go.Prelude.{
  ◌≡◌, refl, ◌∙◌, Bool, false, ◌&&◌, ◌||◌, not, List, [], ◌∷◌, Option, none, some, arith, All,
  if◌then◌else◌, Bool-cases, inl, inr,
}
use idena_test_go.Prelude.Int.{ℤ, ◌==ℤ◌}
use idena_test_go.Prelude.Dict.{Dict}
use idena_test_go.Prelude.Result.{Result, ok, each_with}
use idena_test_go.Scenario.Incoming.{EpochsNodes, Delegations, AddStakes}
use idena_test_go.Scenario.Incoming
use idena_test_go.Scenario.Model
use idena_test_go.Scenario.Nums.Pieces.{numbers_of}
use idena_test_go.Scenario.Counts.{ignore_error}
use idena_test_go.Scenario.Validation.Accepted.{IsReadable}
use idena_test_go.Scenario.Conversion.Loops.{
  over, over_pairs, over_lem, over_pairs_lem, each_with_lem, put_pair, lookup_pair,
  lookup_pair-put_pair,
}
use idena_test_go.Scenario.Conversion.Epochs.{
  add_delegations, convert_delegations, add_add_stakes, convert_add_stakes, add_store_to_ipfs_txs,
  convert_store_to_ipfs_txs, store_of,
}

-- A list names a number.
abbrev pub names : ℤ → List ℤ → Bool
names x [] = false
names x (y ∷ ys) = y ==ℤ x || names x ys

-- An item is about an epoch and a node.
abbrev pub names_pair : ℤ → ℤ → EpochsNodes → Bool
names_pair e n en = names e (numbers_of en.epochs) && names n (numbers_of en.nodes)

-- The value of the last item that a test picks, or else another.
abbrev pub last_value {ℓ} :
    {A : Type ℓ} {V : Type 0} → (A → Bool) → (A → V) → List A → Option V → Option V
last_value test value = over (λ a o. if test a then some (value a) else o)

module _ {V : Type 0} (e n : ℤ) (v : V) where
  -- What one assignment of the loops does to the value of an epoch and a node.
  abbrev put_at : ℤ → ℤ → Option V → Option V
  put_at e' n' o = if e' ==ℤ e && n' ==ℤ n then some v else o

  over_nodes :
      (e' : ℤ) (nodes : List ℤ) (o : Option V)
      → over (put_at e') nodes o ≡ (if e' ==ℤ e && names n nodes then some v else o)
  over_nodes e' [] o = ground arith
  over_nodes e' (n' ∷ nodes) o = ground (arith, over_nodes e' nodes (put_at e' n' o))

  over_pairs-put_at :
      (epochs nodes : List ℤ) (o : Option V)
      → over_pairs put_at epochs nodes o ≡ (if names e epochs && names n nodes then some v else o)
  over_pairs-put_at [] nodes o = refl
  over_pairs-put_at (e' ∷ epochs) nodes o =
      ground
        (arith, over_nodes e' nodes o, over_pairs-put_at epochs nodes (over (put_at e') nodes o))

  -- The loops over epochs and nodes that assign one value.
  pub lookup_pair-over_pairs :
      (epochs nodes : List ℤ) (m : Dict (Dict V))
      → lookup_pair e n (over_pairs (λ e' n'. put_pair e' n' v) epochs nodes m)
        ≡ (if names e epochs && names n nodes then some v else lookup_pair e n m)
  lookup_pair-over_pairs epochs nodes m =
      over_pairs_lem (lookup_pair e n) (λ e' n'. put_pair e' n' v) put_at
        (λ e' n' s. lookup_pair-put_pair e' n' e n v s) epochs nodes m
      ∙ over_pairs-put_at epochs nodes (lookup_pair e n m)

-- A loop over items, each of which is skipped or assigns its value to the epochs and nodes it names.
module _ {ℓ} {A : Type ℓ} {V : Type 0} (texts : A → EpochsNodes) (skipped : A → Bool)
    (value : A → V) (add : A → Dict (Dict V) → Result (Dict (Dict V)))
    (reads : (a : A)
      → IsReadable (texts a)
      → (m : Dict (Dict V))
      → add a m
        ≡ ok (
            if skipped a
            then m
            else over_pairs
                (λ e n. put_pair e n (value a))
                (numbers_of (texts a).epochs)
                (numbers_of (texts a).nodes)
                m)) where
  abbrev picked : ℤ → ℤ → A → Bool
  picked e n a = not (skipped a) && names_pair e n (texts a)

  abbrev assigned : A → Dict (Dict V) → Dict (Dict V)
  assigned a m =
      if skipped a
      then m
      else over_pairs (λ e n. put_pair e n (value a)) (numbers_of (texts a).epochs)
          (numbers_of (texts a).nodes) m

  lookup_pair-assigned :
      (e n : ℤ) (a : A) (m : Dict (Dict V))
      → lookup_pair e n (assigned a m)
        ≡ (if picked e n a then some (value a) else lookup_pair e n m)
  lookup_pair-assigned e n a m = elim (Bool-cases (skipped a)) [
    | inl skip ↦ rw skip refl
    | inr kept ↦ rw kept (
        lookup_pair-over_pairs e n (value a) (numbers_of (texts a).epochs)
          (numbers_of (texts a).nodes) m)
  ]

  pub lookup_pair-each_with :
      (as' : List A)
      → All (λ a. IsReadable (texts a)) as'
      → (m : Dict (Dict V)) × (each_with add as' [] ≡ ok m)
        × ((e n : ℤ) → lookup_pair e n m ≡ last_value (picked e n) value as' none)
  unfolding lookup_pair
  lookup_pair-each_with as' h = (
    over assigned as' [],
    each_with_lem (λ a. IsReadable (texts a)) add assigned reads as' h [],
    λ e n.
        over_lem (lookup_pair e n) assigned (λ a o. if picked e n a then some (value a) else o)
          (lookup_pair-assigned e n) as' [],
  )

-- Delegations with readable texts are converted, without an error or a panic, to the map that holds
-- for each epoch and node the delegatee of the last item that names both, and nothing where no item
-- does.
convert_delegations_lem :
    (ds : List Delegations)
    → All (λ d. IsReadable d.epochs_nodes) ds
    → (m : Dict (Dict ℤ)) × (convert_delegations ds ≡ ok m)
      × ((e n : ℤ)
          → lookup_pair e n m
            ≡ last_value (λ d. names_pair e n d.epochs_nodes) (λ d. d.delegatee) ds none)
unfolding convert_delegations add_delegations
convert_delegations_lem ds h =
    lookup_pair-each_with (λ d. d.epochs_nodes) (λ _. false) (λ d. d.delegatee) add_delegations
      (λ d r m. rw (r.0, r.1) refl) ds h

-- Stakes with readable texts are converted, without an error or a panic, to the map that holds for each
-- epoch and node the amount of the last item that names both, and nothing where no item does.
convert_add_stakes_lem :
    {F : Type 0} (ss : List (AddStakes F))
    → All (λ s. IsReadable s.epochs_nodes) ss
    → (m : Dict (Dict F)) × (convert_add_stakes ss ≡ ok m)
      × ((e n : ℤ)
          → lookup_pair e n m
            ≡ last_value (λ s. names_pair e n s.epochs_nodes) (λ s. s.amount) ss none)
unfolding convert_add_stakes add_add_stakes
convert_add_stakes_lem ss h =
    lookup_pair-each_with (λ s. s.epochs_nodes) (λ _. false) (λ s. s.amount) add_add_stakes
      (λ s r m. rw (r.0, r.1) refl) ss h

-- Delegations and stakes with readable texts are converted, without an error or a panic, to the maps
-- that hold for each epoch and node the delegatee, or the amount, of the last item that names both, and
-- nothing where no item does.
pub convert_delegations_and_stakes_lem :
    {F : Type 0} (ds : List Delegations) (ss : List (AddStakes F))
    → All (λ d. IsReadable d.epochs_nodes) ds
    → All (λ s. IsReadable s.epochs_nodes) ss
    → ((m : Dict (Dict ℤ)) × (convert_delegations ds ≡ ok m)
        × ((e n : ℤ)
            → lookup_pair e n m
              ≡ last_value (λ d. names_pair e n d.epochs_nodes) (λ d. d.delegatee) ds none))
      × ((m : Dict (Dict F)) × (convert_add_stakes ss ≡ ok m)
          × ((e n : ℤ)
              → lookup_pair e n m
                ≡ last_value (λ s. names_pair e n s.epochs_nodes) (λ s. s.amount) ss none))
convert_delegations_and_stakes_lem ds ss hd hs =
    (convert_delegations_lem ds hd, convert_add_stakes_lem ss hs)

-- Items of IPFS transactions with readable texts are converted, without an error or a panic, to the
-- map that holds for each epoch and node the sizes and delays of the last item that names both and is
-- not for another mode: outside the god mode the items that are only for it count for nothing.
pub convert_store_to_ipfs_txs_lem :
    (items : List Incoming.StoreToIpfsTxs) (god_mode : Bool)
    → All (λ i. IsReadable i.delayed.epochs_nodes) items
    → (m : Dict (Dict Model.StoreToIpfsTxs)) × (convert_store_to_ipfs_txs items god_mode ≡ ok m)
      × ((e n : ℤ)
          → lookup_pair e n m
            ≡ last_value
                (λ i.
                  not (i.delayed.epochs_nodes.only_god_mode && not god_mode)
                  && names_pair e n i.delayed.epochs_nodes)
                store_of
                items
                none)
unfolding convert_store_to_ipfs_txs add_store_to_ipfs_txs ignore_error
convert_store_to_ipfs_txs_lem items god_mode h =
    lookup_pair-each_with (λ i. i.delayed.epochs_nodes)
      (λ i. i.delayed.epochs_nodes.only_god_mode && not god_mode) store_of
      (add_store_to_ipfs_txs god_mode) (λ i r m. rw (r.0, r.1) refl) items h
