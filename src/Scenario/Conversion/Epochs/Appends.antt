-- ===== src/Scenario/Conversion/Epochs/Appends.antt =====
-- scenario/conversion.go: the maps that hold a list by epoch, or by epoch and user.
use idena_test_go.Prelude.{
  ◌≡◌, refl, sym, ap, ◌∙◌, ℕ, ◌&&◌, List, [], ◌∷◌, ◌++◌, append_assoc, append-nil, arith, All,
  if◌then◌else◌, Bool-cases, inl, inr,
}
use mathlib.Core.List.{flat_map}
use idena_test_go.Prelude.Int.{ℤ, pos, ◌==ℤ◌, ==ℤ_iff, leb_ℤ, ltb_ℤ}
use idena_test_go.Prelude.Dict.{Dict, lookup}
use idena_test_go.Prelude.Result.{ok}
use idena_test_go.Scenario.Incoming.{EpochsNodes, KillDelegators, KillInvitees, NewUsers}
use idena_test_go.Scenario.Model
use idena_test_go.Scenario.Nums.{parse_nums}
use idena_test_go.Scenario.Nums.Pieces.{numbers_of}
use idena_test_go.Scenario.Counts.{ignore_error}
use idena_test_go.Scenario.Validation.Accepted.{IsReadable}
use idena_test_go.Scenario.Conversion.Loops.{
  over, over_pairs, each_with_lem, get_or, update, get_or-update,
}
use idena_test_go.Scenario.Conversion.Epochs.{
  append_node, add_epochs_nodes, convert_epochs_nodes, append_nodes, add_kill_delegators,
  convert_kill_delegators, add_kill_invitees, convert_kill_invitees, new_users_of, first_new_users,
  add_new_users, convert_epoch_new_users,
}

-- A loop whose rounds append to an observed list.
pub over-appends {ℓ κ} :
    {A : Type ℓ} {S : Type κ} {B : Type 0} (see : S → List B) (f : A → S → S) (part : A → List B)
    → ((a : A) (s : S) → see (f a s) ≡ see s ++ part a)
    → (xs : List A) (s : S) → see (over f xs s) ≡ see s ++ flat_map part xs
unfolding flat_map
over-appends see f part h [] s = sym (append-nil (see s))
over-appends see f part h (x ∷ xs) s =
    over-appends see f part h xs (f x s)
    ∙ ap (λ l. l ++ flat_map part xs) (h x s)
    ∙ append_assoc (see s) (part x) (flat_map part xs)

-- The items once for each time that a list names a number.
abbrev pub for_each : {B : Type 0} → ℤ → List ℤ → List B → List B
for_each e epochs items = flat_map (λ e'. if e' ==ℤ e then items else []) epochs

pub for_each-each :
    (e e' : ℤ) (nodes : List ℤ)
    → flat_map (λ n. if e' ==ℤ e then n ∷ [] else []) nodes ≡ (if e' ==ℤ e then nodes else [])
unfolding flat_map
for_each-each e e' [] = ground arith
for_each-each e e' (n ∷ nodes) = ground (arith, for_each-each e e' nodes)

get_or-append :
    {B : Type 0} (e e' : ℤ) (items : List B) (m : Dict (List B))
    → get_or [] e (update [] (λ l. l ++ items) e' m)
      ≡ get_or [] e m ++ (if e' ==ℤ e then items else [])
get_or-append e e' items m =
    get_or-update [] (λ l. l ++ items) e' e m ∙ elim (Bool-cases (e' ==ℤ e)) [
      | inl same ↦ rw same refl
      | inr other ↦ rw other (sym (append-nil (get_or [] e m)))
    ]

get_or-append_nodes :
    (e k e' k' : ℤ) (nodes : List ℤ) (m : Dict (Dict (List ℤ)))
    → get_or [] k (get_or [] e (append_nodes k' nodes e' m))
      ≡ get_or [] k (get_or [] e m) ++ (if e' ==ℤ e then (if k' ==ℤ k then nodes else []) else [])
get_or-append_nodes e k e' k' nodes m =
    let outer = get_or-update [] (update [] (λ ns. ns ++ nodes) k') e' e m in
    ap (get_or [] k) outer ∙ elim (Bool-cases (e' ==ℤ e)) [
      | inl same ↦ rw same (get_or-append k k' nodes (get_or [] e m))
      | inr other ↦ rw other (sym (append-nil (get_or [] k (get_or [] e m))))
    ]

-- The loops over the epochs and nodes of one item.
get_or-over_pairs :
    (e : ℤ) (epochs nodes : List ℤ) (m : Dict (List ℤ))
    → get_or [] e (over_pairs append_node epochs nodes m) ≡ get_or [] e m ++ for_each e epochs nodes
get_or-over_pairs e epochs nodes m =
    over-appends (get_or [] e) (λ e'. over (append_node e') nodes)
      (λ e'. if e' ==ℤ e then nodes else [])
      (λ e' s.
        over-appends (get_or [] e) (append_node e') (λ n. if e' ==ℤ e then n ∷ [] else [])
          (λ n s'. get_or-append e e' (n ∷ []) s') nodes s
        ∙ ap (λ l. get_or [] e s ++ l) (for_each-each e e' nodes))
      epochs m

-- Items with readable texts are converted, without an error or a panic, to the map that holds for each
-- epoch the nodes of the items in their order, those of an item once for each time that it names the
-- epoch.
pub convert_epochs_nodes_lem :
    (ens : List EpochsNodes)
    → All IsReadable ens
    → (m : Dict (List ℤ)) × (convert_epochs_nodes ens ≡ ok m)
      × ((e : ℤ)
          → get_or [] e m
            ≡ flat_map (λ en. for_each e (numbers_of en.epochs) (numbers_of en.nodes)) ens)
unfolding convert_epochs_nodes add_epochs_nodes ignore_error get_or
convert_epochs_nodes_lem ens h =
    let run : EpochsNodes → Dict (List ℤ) → Dict (List ℤ) =
      λ en. over_pairs append_node (numbers_of en.epochs) (numbers_of en.nodes) in
    (
      over run ens [],
      each_with_lem IsReadable add_epochs_nodes run (λ en r m. rw (r.0, r.1) refl) ens h [],
      λ e.
          over-appends (get_or [] e) run
            (λ en. for_each e (numbers_of en.epochs) (numbers_of en.nodes))
            (λ en m. get_or-over_pairs e (numbers_of en.epochs) (numbers_of en.nodes) m) ens [],
    )

-- A loop over items that appends the nodes of each to the list of its key, in every epoch it names.
module _ {ℓ} {A : Type ℓ} (texts : A → EpochsNodes) (key : A → ℤ) where
  abbrev appended : A → Dict (Dict (List ℤ)) → Dict (Dict (List ℤ))
  appended a =
      over (append_nodes (key a) (numbers_of (texts a).nodes)) (numbers_of (texts a).epochs)

  -- What an item says of an epoch and a key.
  abbrev pub part_of : ℤ → ℤ → A → List ℤ
  part_of e k a =
      for_each e (numbers_of (texts a).epochs)
        (if key a ==ℤ k then numbers_of (texts a).nodes else [])

  get_or-appended :
      (e k : ℤ) (as' : List A)
      → get_or [] k (get_or [] e (over appended as' [])) ≡ flat_map (part_of e k) as'
  unfolding get_or
  get_or-appended e k as' =
      over-appends (λ m. get_or [] k (get_or [] e m)) appended (part_of e k)
        (λ a m.
          over-appends (λ m'. get_or [] k (get_or [] e m'))
            (append_nodes (key a) (numbers_of (texts a).nodes))
            (λ e'.
              if e' ==ℤ e then (if key a ==ℤ k then numbers_of (texts a).nodes else []) else [])
            (λ e' m'. get_or-append_nodes e k e' (key a) (numbers_of (texts a).nodes) m')
            (numbers_of (texts a).epochs) m)
        as' []

-- Items with readable texts are converted, without an error or a panic, to the map that holds for each
-- epoch and delegatee the nodes of the items for that delegatee in their order, those of an item once
-- for each time that it names the epoch.
convert_kill_delegators_lem :
    (ks : List KillDelegators)
    → All (λ k. IsReadable k.epochs_nodes) ks
    → (m : Dict (Dict (List ℤ))) × (convert_kill_delegators ks ≡ ok m)
      × ((e delegatee : ℤ)
          → get_or [] delegatee (get_or [] e m)
            ≡ flat_map (part_of (λ k. k.epochs_nodes) (λ k. k.delegatee) e delegatee) ks)
unfolding convert_kill_delegators add_kill_delegators
convert_kill_delegators_lem ks h = (
  over (appended (λ k. k.epochs_nodes) (λ k. k.delegatee)) ks [],
  each_with_lem (λ k. IsReadable k.epochs_nodes) add_kill_delegators
      (appended (λ k. k.epochs_nodes) (λ k. k.delegatee)) (λ k r m. rw (r.0, r.1) refl) ks h [],
  λ e d. get_or-appended (λ k. k.epochs_nodes) (λ k. k.delegatee) e d ks,
)

-- Items with readable texts are converted, without an error or a panic, to the map that holds for each
-- epoch and inviter the nodes of the items for that inviter in their order, those of an item once for
-- each time that it names the epoch.
convert_kill_invitees_lem :
    (ks : List KillInvitees)
    → All (λ k. IsReadable k.epochs_nodes) ks
    → (m : Dict (Dict (List ℤ))) × (convert_kill_invitees ks ≡ ok m)
      × ((e inviter : ℤ)
          → get_or [] inviter (get_or [] e m)
            ≡ flat_map (part_of (λ k. k.epochs_nodes) (λ k. k.inviter) e inviter) ks)
unfolding convert_kill_invitees add_kill_invitees
convert_kill_invitees_lem ks h = (
  over (appended (λ k. k.epochs_nodes) (λ k. k.inviter)) ks [],
  each_with_lem (λ k. IsReadable k.epochs_nodes) add_kill_invitees
      (appended (λ k. k.epochs_nodes) (λ k. k.inviter)) (λ k r m. rw (r.0, r.1) refl) ks h [],
  λ e i. get_or-appended (λ k. k.epochs_nodes) (λ k. k.inviter) e i ks,
)

-- Items with readable texts of delegators and of invitees to kill are converted, without an error or a
-- panic, to the maps that hold for each epoch and delegatee, or inviter, the nodes of the items for that
-- user in their order, those of an item once for each time that it names the epoch.
pub convert_kills_lem :
    (ds : List KillDelegators) (ks : List KillInvitees)
    → All (λ d. IsReadable d.epochs_nodes) ds
    → All (λ k. IsReadable k.epochs_nodes) ks
    → ((m : Dict (Dict (List ℤ))) × (convert_kill_delegators ds ≡ ok m)
        × ((e delegatee : ℤ)
            → get_or [] delegatee (get_or [] e m)
              ≡ flat_map (part_of (λ d. d.epochs_nodes) (λ d. d.delegatee) e delegatee) ds))
      × ((m : Dict (Dict (List ℤ))) × (convert_kill_invitees ks ≡ ok m)
          × ((e inviter : ℤ)
              → get_or [] inviter (get_or [] e m)
                ≡ flat_map (part_of (λ k. k.epochs_nodes) (λ k. k.inviter) e inviter) ks))
convert_kills_lem ds ks hd hk = (convert_kill_delegators_lem ds hd, convert_kill_invitees_lem ks hk)

-- New users with readable epochs are converted, without an error or a panic, to the map that holds for
-- each epoch the sections in their order, each once for each time that it names the epoch; before them
-- stand, in epoch 0, the users that the scenario starts with, if their number is positive.
pub convert_epoch_new_users_lem :
    {F : Type 0} (address : ℕ) (users : ℤ) (dus : List (NewUsers F))
    → All (λ du. parse_nums du.epochs ≡ ok (numbers_of du.epochs)) dus
    → (m : Dict (List (Model.NewUsers F))) × (convert_epoch_new_users address users dus ≡ ok m)
      × ((e : ℤ)
          → get_or [] e m
            ≡ (if ltb_ℤ (pos 0) users && e ==ℤ pos 0 then first_new_users address users else [])
              ++ flat_map (λ du. for_each e (numbers_of du.epochs) (new_users_of du ∷ [])) dus)
unfolding convert_epoch_new_users add_new_users ignore_error get_or lookup
convert_epoch_new_users_lem {F} address users dus h =
    let run : NewUsers F → Dict (List (Model.NewUsers F)) → Dict (List (Model.NewUsers F)) =
      λ du. over (update [] (λ us. us ++ new_users_of du ∷ [])) (numbers_of du.epochs) in
    let start : Dict (List (Model.NewUsers F)) =
      if leb_ℤ users (pos 0) then [] else (pos 0, first_new_users address users) ∷ [] in
    (
      over run dus start,
      each_with_lem (λ du. parse_nums du.epochs ≡ ok (numbers_of du.epochs)) add_new_users run
          (λ du r m. rw r refl) dus h start,
      λ e.
          over-appends (get_or [] e) run
            (λ du. for_each e (numbers_of du.epochs) (new_users_of du ∷ []))
            (λ du m.
              over-appends (get_or [] e) (update [] (λ us. us ++ new_users_of du ∷ []))
                (λ e'. if e' ==ℤ e then new_users_of du ∷ [] else [])
                (λ e' m'. get_or-append e e' (new_users_of du ∷ []) m') (numbers_of du.epochs) m)
            dus start
          ∙ ap
              (λ l.
                l ++ flat_map (λ du. for_each e (numbers_of du.epochs) (new_users_of du ∷ [])) dus)
              (ground (arith, ==ℤ_iff (pos 0) e, ==ℤ_iff e (pos 0))),
    )
