-- ===== src/Scenario/Conversion/Epochs/Periods.antt =====
-- scenario/conversion.go: the users and the period of the transactions of an epoch.
use idena_test_go.Prelude.{
  ◌≡◌, refl, sym, ap, ◌∙◌, Bool, true, false, ◌&&◌, not, List, [], ◌∷◌, ◌++◌, append-nil, Option,
  none, some, arith, All, if◌then◌else◌, Bool-cases, inl, inr,
}
use mathlib.Core.List.{flat_map}
use idena_test_go.Prelude.Int.{ℤ, ◌==ℤ◌, ==ℤ_iff}
use idena_test_go.Prelude.Dict.{Dict, lookup, lookup-insert}
use idena_test_go.Prelude.Result.{ok}
use idena_test_go.Scenario.Incoming.{Transactions}
use idena_test_go.Scenario.Model.{Txs}
use idena_test_go.Scenario.Nums.Pieces.{numbers_of}
use idena_test_go.Scenario.Counts.{ignore_error}
use idena_test_go.Scenario.Validation.Accepted.{IsReadable}
use idena_test_go.Scenario.Conversion.Loops.{
  over, over_pairs, over_lem, over_pairs_lem, each_with_lem, get_or, update, milliseconds,
}
use idena_test_go.Scenario.Conversion.Epochs.{add_tx_user, add_txs, convert_epoch_txs}
use idena_test_go.Scenario.Conversion.Epochs.Appends.{over-appends, for_each, for_each-each}
use idena_test_go.Scenario.Conversion.Epochs.Pairs.{names}

abbrev users_of : Option Txs → List ℤ
users_of none = []
users_of (some t) = t.users

abbrev period_of : Option Txs → Option ℤ
period_of none = none
period_of (some t) = some t.period

abbrev pub users_at : ℤ → Dict Txs → List ℤ
users_at e m = users_of (lookup e m)

abbrev pub period_at : ℤ → Dict Txs → Option ℤ
period_at e m = period_of (lookup e m)

abbrev with_user : ℤ → ℤ → Option Txs → Txs
with_user period_ms node none = record { period = milliseconds period_ms; users = node ∷ [] }
with_user period_ms node (some t) = record { period = t.period; users = t.users ++ node ∷ [] }

-- A value that is there already, or else this one.
abbrev or_else : ℤ → Option ℤ → Option ℤ
or_else v none = some v
or_else v (some w) = some w

-- The value of the first item that a test picks, unless there is one already.
abbrev pub first_value {ℓ} : {A : Type ℓ} → (A → Bool) → (A → ℤ) → List A → Option ℤ → Option ℤ
first_value test value = over (λ a o. if test a then or_else (value a) o else o)

with_user_lem :
    (period_ms node : ℤ) (o : Option Txs)
    → (let t : Txs = elim o [
      | none ↦ record { period = milliseconds period_ms; users = [] }
      | some t ↦ t
    ] in
        ◌≡◌ {A = Txs}
          (record { period = t.period; users = t.users ++ node ∷ [] })
          (with_user period_ms node o))
with_user_lem period_ms node none = refl
with_user_lem period_ms node (some t) = refl

lookup-add_tx_user :
    (e e' n p : ℤ) (m : Dict Txs)
    → lookup e (add_tx_user p e' n m)
      ≡ (if e' ==ℤ e then some (with_user p n (lookup e m)) else lookup e m)
unfolding update get_or
lookup-add_tx_user e e' n p m = lookup-insert e' e _ m ∙ elim (Bool-cases (e' ==ℤ e)) [
  | inl same ↦ rw same (
      ap some (with_user_lem p n (lookup e' m))
      ∙ ap (λ k. some (with_user p n (lookup k m))) ((==ℤ_iff e' e).0 same))
  | inr other ↦ rw other refl
]

users_of-with_user :
    (p n : ℤ) (o : Option Txs) → users_of (some (with_user p n o)) ≡ users_of o ++ n ∷ []
users_of-with_user p n none = refl
users_of-with_user p n (some t) = refl

period_of-with_user :
    (p n : ℤ) (o : Option Txs)
    → period_of (some (with_user p n o)) ≡ or_else (milliseconds p) (period_of o)
period_of-with_user p n none = refl
period_of-with_user p n (some t) = refl

users_at-add_tx_user :
    (e e' n p : ℤ) (m : Dict Txs)
    → users_at e (add_tx_user p e' n m) ≡ users_at e m ++ (if e' ==ℤ e then n ∷ [] else [])
users_at-add_tx_user e e' n p m =
    ap users_of (lookup-add_tx_user e e' n p m) ∙ elim (Bool-cases (e' ==ℤ e)) [
      | inl same ↦ rw same (users_of-with_user p n (lookup e m))
      | inr other ↦ rw other (sym (append-nil (users_of (lookup e m))))
    ]

period_at-add_tx_user :
    (e e' n p : ℤ) (m : Dict Txs)
    → period_at e (add_tx_user p e' n m)
      ≡ (if e' ==ℤ e then or_else (milliseconds p) (period_at e m) else period_at e m)
period_at-add_tx_user e e' n p m =
    ap period_of (lookup-add_tx_user e e' n p m) ∙ elim (Bool-cases (e' ==ℤ e)) [
      | inl same ↦ rw same (period_of-with_user p n (lookup e m))
      | inr other ↦ rw other refl
    ]

or_else_idem : (v : ℤ) (o : Option ℤ) → or_else v (or_else v o) ≡ or_else v o
or_else_idem v none = refl
or_else_idem v (some w) = refl

abbrev pub is_empty : List ℤ → Bool
is_empty [] = true
is_empty (n ∷ nodes) = false

module _ (e v : ℤ) where
  abbrev first_at : ℤ → ℤ → Option ℤ → Option ℤ
  first_at e' n o = if e' ==ℤ e then or_else v o else o

  over-first_at :
      (e' : ℤ) (nodes : List ℤ) (o : Option ℤ)
      → over (first_at e') nodes o ≡ (if e' ==ℤ e && not (is_empty nodes) then or_else v o else o)
  over-first_at e' [] o = ground arith
  over-first_at e' (n ∷ nodes) o =
      ground (arith, over-first_at e' nodes (first_at e' n o), or_else_idem v o)

  over_pairs-first_at :
      (epochs nodes : List ℤ) (o : Option ℤ)
      → over_pairs first_at epochs nodes o
        ≡ (if names e epochs && not (is_empty nodes) then or_else v o else o)
  over_pairs-first_at [] nodes o = refl
  over_pairs-first_at (e' ∷ epochs) nodes o = ground (
    arith,
    over-first_at e' nodes o,
    over_pairs-first_at epochs nodes (over (first_at e') nodes o),
    or_else_idem v o,
  )

abbrev run : Transactions → Dict Txs → Dict Txs
run t =
    over_pairs (add_tx_user t.period_ms) (numbers_of t.epochs_nodes.epochs)
      (numbers_of t.epochs_nodes.nodes)

users_at-run :
    (e : ℤ) (ts : List Transactions)
    → users_at e (over run ts [])
      ≡ flat_map
          (λ t. for_each e (numbers_of t.epochs_nodes.epochs) (numbers_of t.epochs_nodes.nodes))
          ts
unfolding lookup
users_at-run e ts =
    over-appends (users_at e) run
      (λ t. for_each e (numbers_of t.epochs_nodes.epochs) (numbers_of t.epochs_nodes.nodes))
      (λ t m.
        let nodes = numbers_of t.epochs_nodes.nodes in
        over-appends (users_at e) (λ e'. over (add_tx_user t.period_ms e') nodes)
          (λ e'. if e' ==ℤ e then nodes else [])
          (λ e' s.
            over-appends (users_at e) (add_tx_user t.period_ms e')
              (λ n. if e' ==ℤ e then n ∷ [] else [])
              (λ n s'. users_at-add_tx_user e e' n t.period_ms s') nodes s
            ∙ ap (λ l. users_at e s ++ l) (for_each-each e e' nodes))
          (numbers_of t.epochs_nodes.epochs) m)
      ts []

period_at-run :
    (e : ℤ) (ts : List Transactions)
    → period_at e (over run ts [])
      ≡ first_value
          (λ t.
            names e (numbers_of t.epochs_nodes.epochs)
            && not (is_empty (numbers_of t.epochs_nodes.nodes)))
          (λ t. milliseconds t.period_ms)
          ts
          none
unfolding lookup
period_at-run e ts =
    over_lem (period_at e) run
      (λ t o.
        if names e (numbers_of t.epochs_nodes.epochs)
          && not (is_empty (numbers_of t.epochs_nodes.nodes))
        then or_else (milliseconds t.period_ms) o
        else o)
      (λ t m.
        over_pairs_lem (period_at e) (add_tx_user t.period_ms)
          (first_at e (milliseconds t.period_ms))
          (λ e' n s. period_at-add_tx_user e e' n t.period_ms s) (numbers_of t.epochs_nodes.epochs)
          (numbers_of t.epochs_nodes.nodes) m
        ∙ over_pairs-first_at e (milliseconds t.period_ms) (numbers_of t.epochs_nodes.epochs)
            (numbers_of t.epochs_nodes.nodes) (period_at e m))
      ts []

-- Transactions with readable texts are converted, without an error or a panic, to the map that holds for
-- each epoch the nodes of the items in their order, those of an item once for each time that it names
-- the epoch, and the period of the first item that names the epoch and a node; the periods of the
-- later items for that epoch count for nothing.
pub convert_epoch_txs_lem :
    (ts : List Transactions)
    → All (λ t. IsReadable t.epochs_nodes) ts
    → (m : Dict Txs) × (convert_epoch_txs ts ≡ ok m)
      × ((e : ℤ)
          → (users_at e m
              ≡ flat_map
                  (λ t.
                    for_each e (numbers_of t.epochs_nodes.epochs) (numbers_of t.epochs_nodes.nodes))
                  ts)
            × (period_at e m
                ≡ first_value
                    (λ t.
                      names e (numbers_of t.epochs_nodes.epochs)
                      && not (is_empty (numbers_of t.epochs_nodes.nodes)))
                    (λ t. milliseconds t.period_ms)
                    ts
                    none))
unfolding convert_epoch_txs add_txs ignore_error lookup
convert_epoch_txs_lem ts h = (
  over run ts [],
  each_with_lem (λ t. IsReadable t.epochs_nodes) add_txs run (λ t r m. rw (r.0, r.1) refl) ts h [],
  λ e. (users_at-run e ts, period_at-run e ts),
)
