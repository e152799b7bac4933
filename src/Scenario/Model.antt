-- ===== src/Scenario/Model.antt =====
-- scenario/internal.go: the scenario that the process reads. `F` is float32, `G` is float64, a
-- `time.Duration` is its nanoseconds, and a map is an association list.
use idena_test_go.Prelude.{ℕ, Bool, Option, List, String}
use idena_test_go.Prelude.Int.{ℤ}
use idena_test_go.Prelude.Dict.{Dict}
use idena_test_go.Scenario.Incoming.{Ref}

pub record NewUsers (F : Type 0) : Type 0 where
  pub count : ℤ
  pub inviter : Option Ref
  pub command : String
  pub shared_node : Option ℤ
  pub invite_amount : Option F

pub record Txs : Type 0 where
  pub period : ℤ
  pub users : List ℤ

pub record NodeSwitch : Type 0 where
  pub is_start : Bool
  pub delay : ℤ

pub record UserCeremony : Type 0 where
  pub submit_flips : Option ℤ
  pub skip_validation : Bool
  pub fail_short_session : Bool
  pub skip_epoch : Bool

pub record StateAssertion : Type 0 where
  pub state : String
  pub count : ℤ

pub record NodeAssertion : Type 0 where
  pub made_flips : Option ℤ
  pub required_flips : Option ℤ
  pub available_invites : Option ℤ
  pub state : Option String
  pub online : Option Bool

pub record Assertion : Type 0 where
  pub states : List StateAssertion
  pub nodes : Dict NodeAssertion

pub record Ceremony : Type 0 where
  pub user_ceremonies : Dict UserCeremony
  pub assertion : Option Assertion

pub record AnswerRates (F : Type 0) : Type 0 where
  pub left : F
  pub right : F
  pub inappropriate : F

pub record Answers : Type 0 where
  pub default_answer : ℕ
  pub answers : Dict ℕ
  pub presences : Dict Bool

pub record NodeUpdate : Type 0 where
  pub command : String
  pub delay : ℤ

pub record MultiBotPools (G : Type 0) : Type 0 where
  pub sizes : List ℤ
  pub bot_delegators_rate : G

pub record StoreToIpfsTxs : Type 0 where
  pub sizes : List ℤ
  pub delay : ℤ
  pub step_delay : ℤ

pub record Scenario (F G : Type 0) : Type 0 where
  pub invite_amount : F
  pub epoch_new_users_before_flips : Dict (List (NewUsers F))
  pub epoch_new_users_after_flips : Dict (List (NewUsers F))
  pub epoch_node_switches : Dict (Dict (List NodeSwitch))
  pub epoch_node_onlines : Dict (List ℤ)
  pub epoch_node_offlines : Dict (List ℤ)
  pub epoch_txs : Dict Txs
  pub epoch_delayed_flip_keys : Dict (List ℤ)
  pub ceremony_min_offset : ℤ
  pub default_answer : ℕ
  pub ceremonies : Dict Ceremony
  pub epoch_node_updates : Dict (Dict NodeUpdate)
  pub delegations : Dict (Dict ℤ)
  pub add_stakes : Dict (Dict F)
  pub undelegations : Dict (List ℤ)
  pub kill_delegators : Dict (Dict (List ℤ))
  pub kill_invitees : Dict (Dict (List ℤ))
  pub multi_bot_pools : Option (MultiBotPools G)
  pub store_to_ipfs_txs : Dict (Dict StoreToIpfsTxs)
  pub kills : Dict (List ℤ)
