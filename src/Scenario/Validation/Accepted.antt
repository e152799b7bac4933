-- ===== src/Scenario/Validation/Accepted.antt =====
-- `validate` of scenario/validation.go: what holds of a scenario that it accepts.
use idena_test_go.Prelude.{◌≡◌, refl, String, Bytes, List, [], ◌∷◌, arith, All}
use idena_test_go.Prelude.Int.{ℤ, pos, ◌≤ℤ◌}
use idena_test_go.Prelude.Float.{Float}
use idena_test_go.Prelude.Result.{
  Error, Result, ok, err, panic, >>=-eq-ok, >>-eq-ok, with_message, each-eq-ok, bad_epochs,
  bad_nodes,
}
use idena_test_go.Scenario.Incoming.{
  EpochsNodes, DelayedEpochsNodes, Transactions, IncomingScenario,
}
use idena_test_go.Scenario.Nums.{parse_nums}
use idena_test_go.Scenario.Nums.Pieces.{numbers_of, listed}
use idena_test_go.Scenario.Counts.{build_epoch_user_counts}
use idena_test_go.Scenario.Validation.{
  validate, validate_positive_int, validate_not_negative_int, validate_all_new_users,
  validate_epochs_nodes_item, validate_epochs_nodes, validate_delayed_epochs_nodes_item,
  validate_delayed_epochs_nodes, validate_transactions_item, validate_transactions,
}
use idena_test_go.Scenario.Validation.Keys.{Fresh}
use idena_test_go.Scenario.Validation.Ceremonies.{
  ceremony_epochs, IsCeremony, validate_ceremonies-Fresh,
}

-- Both texts are lists of numbers.
abbrev pub IsReadable : EpochsNodes → Type 0
IsReadable en =
    (parse_nums en.epochs ≡ ok (numbers_of en.epochs))
    × (parse_nums en.nodes ≡ ok (numbers_of en.nodes))

abbrev pub IsDelayed : DelayedEpochsNodes → Type 0
IsDelayed den = IsReadable den.epochs_nodes × (pos 0 ≤ℤ den.delay_sec)

abbrev pub IsPeriodic : Transactions → Type 0
IsPeriodic tx = IsReadable tx.epochs_nodes × (pos 1 ≤ℤ tx.period_ms)

All-map {ℓ} :
    {A : Type ℓ} {P Q : A → Type 0} (f : (x : A) → P x → Q x) (xs : List A) → All P xs → All Q xs
All-map f [] h = tt
All-map f (x ∷ xs) h = (f x h.0, All-map f xs h.1)

positive-eq-ok : (z : ℤ) (name : String) → validate_positive_int z name ≡ ok tt → pos 1 ≤ℤ z
unfolding validate_positive_int
positive-eq-ok z name h = ground arith

not_negative-eq-ok : (z : ℤ) (name : String) → validate_not_negative_int z name ≡ ok tt → pos 0 ≤ℤ z
unfolding validate_not_negative_int
not_negative-eq-ok z name h = ground arith

with_message-reads :
    (e : Error) (s : Bytes) (xs : List ℤ)
    → with_message e (parse_nums s) ≡ ok xs
    → parse_nums s ≡ ok (numbers_of s)
with_message-reads e s xs h = read (parse_nums s) h
  where
    read : (r : Result (List ℤ)) → with_message e r ≡ ok xs → r ≡ ok (listed r)
    read (ok ys) h = refl
    read (err _) h = cc
    read (panic _) h = cc

item-IsReadable : (en : EpochsNodes) → validate_epochs_nodes_item en ≡ ok tt → IsReadable en
unfolding validate_epochs_nodes_item
item-IsReadable en h =
    let (es, h1, k1) = >>=-eq-ok (with_message bad_epochs (parse_nums en.epochs)) _ h in
    let (ns, h2, _) = >>=-eq-ok (with_message bad_nodes (parse_nums en.nodes)) _ k1 in
    (with_message-reads bad_epochs en.epochs es h1, with_message-reads bad_nodes en.nodes ns h2)

item-IsDelayed :
    (den : DelayedEpochsNodes) → validate_delayed_epochs_nodes_item den ≡ ok tt → IsDelayed den
unfolding validate_delayed_epochs_nodes_item
item-IsDelayed den h =
    let (h1, h2) = >>-eq-ok (validate_epochs_nodes_item den.epochs_nodes) _ h in
    (item-IsReadable den.epochs_nodes h1, not_negative-eq-ok den.delay_sec "delaySec" h2)

item-IsPeriodic : (tx : Transactions) → validate_transactions_item tx ≡ ok tt → IsPeriodic tx
unfolding validate_transactions_item
item-IsPeriodic tx h =
    let (h1, h2) = >>-eq-ok (validate_epochs_nodes_item tx.epochs_nodes) _ h in
    (item-IsReadable tx.epochs_nodes h1, positive-eq-ok tx.period_ms "periodMs" h2)

readable : (ens : List EpochsNodes) → validate_epochs_nodes ens ≡ ok tt → All IsReadable ens
unfolding validate_epochs_nodes
readable ens h = All-map item-IsReadable ens (each-eq-ok validate_epochs_nodes_item ens h)

delayed :
    (dens : List DelayedEpochsNodes)
    → validate_delayed_epochs_nodes dens ≡ ok tt
    → All IsDelayed dens
unfolding validate_delayed_epochs_nodes
delayed dens h = All-map item-IsDelayed dens (each-eq-ok validate_delayed_epochs_nodes_item dens h)

periodic : (txs : List Transactions) → validate_transactions txs ≡ ok tt → All IsPeriodic txs
unfolding validate_transactions
periodic txs h = All-map item-IsPeriodic txs (each-eq-ok validate_transactions_item txs h)

-- An accepted scenario: what its conversion and the process may rely on.
pub record IsAccepted {F G : Type 0} (sc : IncomingScenario F G) : Type 0 where
  pub some_users : pos 1 ≤ℤ sc.users
  pub some_offset : pos 1 ≤ℤ sc.ceremony_min_offset
  pub starts : All IsDelayed sc.node_starts
  pub stops : All IsDelayed sc.node_stops
  pub onlines : All IsReadable sc.node_onlines
  pub offlines : All IsReadable sc.node_offlines
  pub keys : All IsReadable sc.delayed_keys
  pub transactions : All IsPeriodic sc.txs
  pub epochs_fresh : Fresh [] (ceremony_epochs sc.ceremonies)
  pub counts : List ℤ
  pub counted : build_epoch_user_counts sc ≡ ok counts
  pub ceremonies : All (IsCeremony counts) sc.ceremonies

-- In an accepted scenario the number of users and the ceremony offset are positive; the epochs and
-- nodes of the starts, stops, onlines, offlines, delayed keys and transactions are lists of numbers,
-- no delay of a start or stop is negative and every period is positive; the counts of the users are
-- built, no epoch has two ceremonies, and each ceremony has a last epoch and names users without
-- repetition below the count that is looked up for that epoch.
pub validate-IsAccepted :
    {F G : Type 0} ⦃float : Float F⦄ (sc : IncomingScenario F G)
    → validate sc ≡ ok tt
    → IsAccepted sc
unfolding validate
validate-IsAccepted sc h =
    let (h1, k1) = >>-eq-ok (validate_positive_int sc.users "UsersCount") _ h in
    let (h2, k2) =
      >>-eq-ok (validate_positive_int sc.ceremony_min_offset "CeremonyMinOffset") _ k1 in
    let (_, k3) = >>-eq-ok (validate_all_new_users sc.new_users) _ k2 in
    let (_, k4) = >>-eq-ok (validate_all_new_users sc.new_users_after_flips) _ k3 in
    let (h5, k5) = >>-eq-ok (validate_delayed_epochs_nodes sc.node_starts) _ k4 in
    let (h6, k6) = >>-eq-ok (validate_delayed_epochs_nodes sc.node_stops) _ k5 in
    let (h7, k7) = >>-eq-ok (validate_epochs_nodes sc.node_onlines) _ k6 in
    let (h8, k8) = >>-eq-ok (validate_epochs_nodes sc.node_offlines) _ k7 in
    let (h9, k9) = >>-eq-ok (validate_epochs_nodes sc.delayed_keys) _ k8 in
    let (h10, k10) = >>-eq-ok (validate_transactions sc.txs) _ k9 in
    let (counts, h11, k11) = >>=-eq-ok (build_epoch_user_counts sc) _ k10 in
    let (fresh, good) = validate_ceremonies-Fresh sc.ceremonies counts k11 in
    record {
      some_users = positive-eq-ok sc.users "UsersCount" h1;
      some_offset = positive-eq-ok sc.ceremony_min_offset "CeremonyMinOffset" h2;
      starts = delayed sc.node_starts h5;
      stops = delayed sc.node_stops h6;
      onlines = readable sc.node_onlines h7;
      offlines = readable sc.node_offlines h8;
      keys = readable sc.delayed_keys h9;
      transactions = periodic sc.txs h10;
      epochs_fresh = fresh;
      counts = counts;
      counted = h11;
      ceremonies = good;
    }
