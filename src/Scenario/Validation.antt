-- ===== src/Scenario/Validation.antt =====
-- scenario/validation.go: the checks of an incoming scenario, in the order of the code. A map that a
-- check fills is passed on; as a set it is the list of its keys.
mod Keys
pub mod Ceremonies
pub mod Inviters
pub mod Accepted
mod Tests
use idena_test_go.Prelude.{
  ℕ, ◌≡◌, Bool, true, false, ◌&&◌, ◌||◌, not, List, [], ◌∷◌, ◌++◌, Option, none, some, Bytes,
  String, ltb, ◌==◌, if◌then◌else◌, length,
}
use idena_test_go.Prelude.Int.{ℤ, pos, negsuc, ltb_ℤ, leb_ℤ, ◌==ℤ◌, ◌+ℤ◌}
use idena_test_go.Prelude.Float.{Float}
use idena_test_go.Prelude.Result.{
  Result, ok, err, panic, ◌>>=◌, ◌>>◌, reject_if, with_message, each, each_with, index,
  not_positive, not_negative, bad_float, bad_epochs, bad_nodes, bad_users, repeated_epoch_node,
  repeated_epoch, repeated_user, unknown_user, rates_and_answers, rates_total, bad_answer,
}
use idena_test_go.Scenario.Incoming.{
  Ref, NewUsers, EpochsNodes, DelayedEpochsNodes, Transactions, AnswerRates, Answer, UserCeremony,
  Ceremony, Assertion, IncomingScenario,
}
use idena_test_go.Scenario.Nums.{parse_nums}
use idena_test_go.Scenario.Counts.{ignore_error, build_epoch_user_counts, users_count}

pub validate_positive_int : ℤ → String → Result (Unit {0})
validate_positive_int value name = reject_if (leb_ℤ value (pos 0)) (not_positive name value)

pub validate_not_negative_int : ℤ → String → Result (Unit {0})
validate_not_negative_int value name = reject_if (ltb_ℤ value (pos 0)) (not_negative name value)

-- The key `fmt.Sprintf("%v_%v", epoch, node)` of a `node *int`: a pointer is printed as its address.
abbrev pub EpochNode : Type 0
EpochNode = ℤ × Option ℕ

abbrev pub address_of : Option Ref → Option ℕ
address_of none = none
address_of (some r) = some r.address

abbrev same_address : Option ℕ → Option ℕ → Bool
same_address none none = true
same_address (some a) (some b) = a == b
same_address _ _ = false

pub has_key : EpochNode → List EpochNode → Bool
has_key k [] = false
has_key (e, n) ((f, m) ∷ used) = (f ==ℤ e && same_address m n) || has_key (e, n) used

pub has : ℤ → List ℤ → Bool
has x [] = false
has x (y ∷ used) = (y ==ℤ x) || has x used

pub validate_epoch_node : Option Ref → ℤ → List EpochNode → Result (List EpochNode)
unfolding has_key validate_not_negative_int
validate_epoch_node node epoch used = do
  validate_not_negative_int epoch "epoch"
  reject_if (has_key (epoch, address_of node) used) (repeated_epoch_node epoch)
  ok ((epoch, address_of node) ∷ used)

pub validate_epoch : ℤ → List ℤ → Result (List ℤ)
unfolding has validate_not_negative_int
validate_epoch epoch used = do
  validate_not_negative_int epoch "epoch"
  reject_if (has epoch used) (repeated_epoch epoch)
  ok (epoch ∷ used)

pub validate_epoch_nodes : Bytes → Option Ref → List EpochNode → Result (List EpochNode)
unfolding validate_epoch_node parse_nums
validate_epoch_nodes epochs_str node used = do
  epochs ← with_message bad_epochs (parse_nums epochs_str)
  each_with (validate_epoch_node node) epochs used

pub validate_epochs : Bytes → List ℤ → Result (List ℤ)
unfolding validate_epoch parse_nums
validate_epochs epochs_str used = do
  epochs ← with_message bad_epochs (parse_nums epochs_str)
  each_with validate_epoch epochs used

abbrev validate_inviter : Option Ref → Result (Unit {0})
validate_inviter none = ok tt
validate_inviter (some r) = validate_not_negative_int r.target "inviter"

pub validate_epochs_nodes_item : EpochsNodes → Result (Unit {0})
unfolding parse_nums
validate_epochs_nodes_item en = do
  _ ← with_message bad_epochs (parse_nums en.epochs)
  _ ← with_message bad_nodes (parse_nums en.nodes)
  ok tt

pub validate_epochs_nodes : List EpochsNodes → Result (Unit {0})
unfolding validate_epochs_nodes_item
validate_epochs_nodes = each validate_epochs_nodes_item

pub validate_delayed_epochs_nodes_item : DelayedEpochsNodes → Result (Unit {0})
unfolding validate_epochs_nodes_item validate_not_negative_int
validate_delayed_epochs_nodes_item den = do
  validate_epochs_nodes_item den.epochs_nodes
  validate_not_negative_int den.delay_sec "delaySec"

pub validate_delayed_epochs_nodes : List DelayedEpochsNodes → Result (Unit {0})
unfolding validate_delayed_epochs_nodes_item
validate_delayed_epochs_nodes = each validate_delayed_epochs_nodes_item

pub validate_transactions_item : Transactions → Result (Unit {0})
unfolding validate_epochs_nodes_item validate_positive_int
validate_transactions_item tx = do
  validate_epochs_nodes_item tx.epochs_nodes
  validate_positive_int tx.period_ms "periodMs"

pub validate_transactions : List Transactions → Result (Unit {0})
unfolding validate_transactions_item
validate_transactions = each validate_transactions_item

pub validate_answer : Answer → Result (Unit {0})
validate_answer a = reject_if (ltb 3 a.answer) bad_answer

pub validate_answers : List Answer → Result (Unit {0})
unfolding validate_answer
validate_answers = each validate_answer

pub validate_ceremony_user : ℤ → ℤ → List ℤ → Result (List ℤ)
unfolding has validate_not_negative_int
validate_ceremony_user users_count user used = do
  validate_not_negative_int user "user"
  reject_if (leb_ℤ users_count user) (unknown_user user users_count)
  reject_if (has user used) (repeated_user user)
  ok (user ∷ used)

pub validate_ceremony_users : Bytes → ℤ → List ℤ → Result (List ℤ)
unfolding validate_ceremony_user parse_nums
validate_ceremony_users users_str users_count used = do
  users ← with_message bad_users (parse_nums users_str)
  each_with (validate_ceremony_user users_count) users used

abbrev validate_submit_flips : Option ℤ → Result (Unit {0})
validate_submit_flips none = ok tt
validate_submit_flips (some n) = validate_not_negative_int n "submitFlips"

pub validate_assertion : Option Assertion → Result (Unit {0})
validate_assertion a = ok tt

module _ {F : Type 0} where
  pub validate_new_users : NewUsers F → List EpochNode → Result (List EpochNode)
  unfolding validate_epoch_nodes validate_positive_int validate_not_negative_int
  validate_new_users du used = do
    used' ← validate_epoch_nodes du.epochs du.inviter used
    validate_positive_int du.count "count"
    validate_inviter du.inviter
    ok used'

  pub validate_all_new_users : List (NewUsers F) → Result (Unit {0})
  unfolding validate_new_users
  validate_all_new_users all_new_users = do _ ← each_with validate_new_users all_new_users []; ok tt

module _ {F : Type 0} ⦃float : Float F⦄ where
  pub validate_not_negative_float : F → String → Result (Unit {0})
  validate_not_negative_float value name = reject_if (float.less value float.zero) (bad_float name)

  pub validate_answer_rates : AnswerRates F → Result (Unit {0})
  unfolding validate_not_negative_float
  validate_answer_rates rates = do
    validate_not_negative_float rates.left "left"
    validate_not_negative_float rates.right "right"
    validate_not_negative_float rates.inappropriate "inappropriate"
    let amount = float.add (float.add rates.left rates.right) rates.inappropriate
    reject_if (float.less float.one amount) rates_total

  -- The tests on `rates == nil` and `len(answers) == 0`, in the order of the code.
  pub validate_session_answers : Option (AnswerRates F) → List Answer → String → Result (Unit {0})
  unfolding validate_answer_rates validate_answers
  validate_session_answers none [] session = ok tt
  validate_session_answers (some rates) (a ∷ answers) session = err (rates_and_answers session)
  validate_session_answers (some rates) [] session = validate_answer_rates rates
  validate_session_answers none (a ∷ answers) session = validate_answers (a ∷ answers)

  pub validate_user_ceremony : ℤ → UserCeremony F → List ℤ → Result (List ℤ)
  unfolding validate_ceremony_users validate_not_negative_int validate_session_answers
  validate_user_ceremony users_count uc used = do
    used' ← validate_ceremony_users uc.users users_count used
    validate_submit_flips uc.submit_flips
    validate_session_answers uc.short_answer_rates uc.short_answers "short"
    validate_session_answers uc.long_answer_rates uc.long_answers "long"
    ok used'

  pub validate_user_ceremonies : List (UserCeremony F) → ℤ → Result (Unit {0})
  unfolding validate_user_ceremony
  validate_user_ceremonies user_ceremonies users_count = do
    _ ← each_with (validate_user_ceremony users_count) user_ceremonies []
    ok tt

  -- `epochs[len(epochs)-1]` is out of range where the list is empty.
  pub validate_ceremony : List ℤ → Ceremony F → List ℤ → Result (List ℤ)
  unfolding validate_epochs ignore_error parse_nums users_count validate_user_ceremonies
      validate_assertion ◌+ℤ◌
  validate_ceremony epoch_users_count c used = do
    used' ← validate_epochs c.epochs used
    epochs ← ignore_error (parse_nums c.epochs)
    max_epoch ← index epochs (pos (length epochs) +ℤ negsuc 0)
    count ← users_count epoch_users_count max_epoch
    validate_user_ceremonies c.user_ceremonies count
    validate_assertion c.assertion
    ok used'

  pub validate_ceremonies : List (Ceremony F) → List ℤ → Result (Unit {0})
  unfolding validate_ceremony
  validate_ceremonies ceremonies epoch_users_count = do
    _ ← each_with (validate_ceremony epoch_users_count) ceremonies []
    ok tt

  pub validate : {G : Type 0} → IncomingScenario F G → Result (Unit {0})
  unfolding validate_positive_int validate_all_new_users validate_delayed_epochs_nodes
      validate_epochs_nodes validate_transactions build_epoch_user_counts validate_ceremonies
  validate sc = do
    validate_positive_int sc.users "UsersCount"
    validate_positive_int sc.ceremony_min_offset "CeremonyMinOffset"
    validate_all_new_users sc.new_users
    validate_all_new_users sc.new_users_after_flips
    validate_delayed_epochs_nodes sc.node_starts
    validate_delayed_epochs_nodes sc.node_stops
    validate_epochs_nodes sc.node_onlines
    validate_epochs_nodes sc.node_offlines
    validate_epochs_nodes sc.delayed_keys
    validate_transactions sc.txs
    epoch_users_count ← build_epoch_user_counts sc
    validate_ceremonies sc.ceremonies epoch_users_count
