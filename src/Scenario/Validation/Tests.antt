-- ===== src/Scenario/Validation/Tests.antt =====
-- The theorems on the validation at concrete scenarios.
use idena_test_go.Prelude.{
  ℕ, ◌≡◌, refl, false, List, [], ◌∷◌, arith, codes, Bytes, none, some, ltb, ◌+◌,
}
use idena_test_go.Prelude.Int.{pos, wrap64}
use idena_test_go.Prelude.Float.{Float}
use idena_test_go.Prelude.Result.{ok, panic, index_out_of_range}
use idena_test_go.Scenario.Incoming.{
  NewUsers, EpochsNodes, UserCeremony, Ceremony, IncomingScenario,
}
use idena_test_go.Scenario.Nums.{parse_nums}
use idena_test_go.Scenario.Counts.{build_epoch_user_counts, users_count}
use idena_test_go.Scenario.Counts.Refinement.{users_by, users_count_lem}
use idena_test_go.Scenario.Validation.{
  validate, validate_all_new_users, validate_user_ceremonies, validate_ceremonies,
  validate_ceremony,
}
use idena_test_go.Scenario.Validation.Ceremonies.{validate_ceremony_panics}
use idena_test_go.Scenario.Validation.Inviters.{IsSection, validate_all_new_users_lem}
use idena_test_go.Scenario.Validation.Accepted.{IsAccepted, validate-IsAccepted}

-- Tenths as numbers.
instance abbrev tenths : Float ℕ
tenths = record { zero = 0; one = 10; add = λ a b. a + b; less = ltb }

abbrev user_ceremony : Bytes → UserCeremony ℕ
user_ceremony users = record {
  users = users;
  submit_flips = some (pos 2);
  skip_epoch = false;
  skip_validation = false;
  fail_short_session = false;
  short_answers = [];
  short_answer_rates = some (record { left = 3; right = 3; inappropriate = 2 });
  long_answers = [];
  long_answer_rates = none;
}

abbrev ceremony : Bytes → List (UserCeremony ℕ) → Ceremony ℕ
ceremony epochs ucs = record { epochs = epochs; user_ceremonies = ucs; assertion = none }

abbrev section : Bytes → ℕ → NewUsers ℕ
section epochs address = record {
  epochs = epochs;
  count = pos 2;
  inviter = some (record { address = address; target = pos 0 });
  command = "";
  shared_node = none;
  invite_amount = none;
}

abbrev nodes : Bytes → Bytes → EpochsNodes
nodes epochs numbers = record { epochs = epochs; nodes = numbers; only_god_mode = false }

-- Three users, two more in epoch 1 and two more in epoch 3.
abbrev small : IncomingScenario ℕ ℕ
small = record {
  users = pos 3;
  invite_amount = none;
  ceremony_min_offset = pos 5;
  new_users = section (codes "1,3") 100 ∷ [];
  new_users_after_flips = [];
  node_starts = [];
  node_stops = record { epochs_nodes = nodes (codes "1") (codes "2"); delay_sec = pos 4 } ∷ [];
  node_onlines = nodes (codes "0-2") (codes "1") ∷ [];
  node_offlines = [];
  delayed_keys = [];
  txs = record { epochs_nodes = nodes (codes "1") (codes "0-3"); period_ms = pos 10 } ∷ [];
  default_answer = 0;
  ceremonies =
      ceremony (codes "0-2") (user_ceremony (codes "0,1") ∷ user_ceremony (codes "2-4") ∷ []) ∷ [];
  node_updates = [];
  delegations = [];
  kill_delegators = [];
  kill_invitees = [];
  undelegations = [];
  multi_bot_pools = none;
  store_to_ipfs_txs = [];
  kills = [];
  add_stakes = [];
}

small_counts : build_epoch_user_counts small ≡ ok (pos 3 ∷ pos 5 ∷ pos 5 ∷ pos 7 ∷ [])
unfolding build_epoch_user_counts parse_nums
small_counts = refl

users_count_lem_example :
    users_count (pos 3 ∷ pos 5 ∷ pos 5 ∷ pos 7 ∷ []) (pos 9) ≡ ok (wrap64 (users_by small (pos 9)))
users_count_lem_example =
    users_count_lem small (pos 3 ∷ pos 5 ∷ pos 5 ∷ pos 7 ∷ []) 9 (omega arith) small_counts

user_ceremonies_accepted :
    validate_user_ceremonies
      (user_ceremony (codes "0,1") ∷ user_ceremony (codes "2-4") ∷ [])
      (pos 5)
    ≡ ok tt
unfolding validate_user_ceremonies
user_ceremonies_accepted = refl

ceremonies_accepted :
    validate_ceremonies small.ceremonies (pos 3 ∷ pos 5 ∷ pos 5 ∷ pos 7 ∷ []) ≡ ok tt
unfolding validate_ceremonies
ceremonies_accepted = refl

validate_ceremony_panics_example :
    validate_ceremony (pos 3 ∷ []) (ceremony (codes "5-3") []) [] ≡ panic index_out_of_range
validate_ceremony_panics_example =
    validate_ceremony_panics (pos 3 ∷ []) (ceremony (codes "5-3") []) [] (codes "5") (codes "3")
      (cc, omega arith, omega arith) (cc, omega arith, omega arith) (omega arith) refl

small_accepted : validate small ≡ ok tt
unfolding validate
small_accepted = refl

validate-IsAccepted_example : IsAccepted small
validate-IsAccepted_example = validate-IsAccepted small small_accepted

epoch_one : parse_nums (codes "1") ≡ ok (pos 1 ∷ [])
unfolding parse_nums
epoch_one = refl

abbrev epoch_one_section : (address : ℕ) → IsSection (section (codes "1") address)
epoch_one_section address = record {
  inviter = record { address = address; target = pos 0 };
  points = refl;
  inviter_nonneg = omega arith;
  count_positive = omega arith;
  epochs = pos 1 ∷ [];
  reads = epoch_one;
  epochs_fresh = (tt, tt);
}

-- Two sections for the same epoch and the same inviter, user 0.
validate_all_new_users_lem_example :
    validate_all_new_users (section (codes "1") 100 ∷ section (codes "1") 200 ∷ []) ≡ ok tt
validate_all_new_users_lem_example =
    validate_all_new_users_lem (section (codes "1") 100 ∷ section (codes "1") 200 ∷ [])
      (epoch_one_section 100, (epoch_one_section 200, tt)) (omega arith)
