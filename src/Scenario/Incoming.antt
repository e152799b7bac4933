-- ===== src/Scenario/Incoming.antt =====
-- scenario/incoming.go: the scenario as it is read from its JSON file. `F` is float32 and `G` is
-- float64. A pointer is an `Option`; the inviter's pointer keeps its address, which
-- scenario/validation.go prints.
use idena_test_go.Prelude.{ℕ, Bool, Option, List, Bytes, String}
use idena_test_go.Prelude.Int.{ℤ}

-- A `*int`: where it points, and what stands there.
pub record Ref : Type 0 where
  pub address : ℕ
  pub target : ℤ

pub record NewUsers (F : Type 0) : Type 0 where
  pub epochs : Bytes
  pub count : ℤ
  pub inviter : Option Ref
  pub command : String
  pub shared_node : Option ℤ
  pub invite_amount : Option F

pub record EpochsNodes : Type 0 where
  pub epochs : Bytes
  pub nodes : Bytes
  pub only_god_mode : Bool

pub record DelayedEpochsNodes : Type 0 where
  pub epochs_nodes : EpochsNodes
  pub delay_sec : ℤ

pub record Transactions : Type 0 where
  pub epochs_nodes : EpochsNodes
  pub period_ms : ℤ

pub record AnswerRates (F : Type 0) : Type 0 where
  pub left : F
  pub right : F
  pub inappropriate : F

pub record Answer : Type 0 where
  pub index : ℤ
  pub answer : ℕ

pub record UserCeremony (F : Type 0) : Type 0 where
  pub users : Bytes
  pub submit_flips : Option ℤ
  pub skip_epoch : Bool
  pub skip_validation : Bool
  pub fail_short_session : Bool
  pub short_answers : List Answer
  pub short_answer_rates : Option (AnswerRates F)
  pub long_answers : List Answer
  pub long_answer_rates : Option (AnswerRates F)

pub record StateAssertion : Type 0 where
  pub state : String
  pub count : ℤ

pub record NodeAssertion : Type 0 where
  pub users : Bytes
  pub made_flips : Option ℤ
  pub required_flips : Option ℤ
  pub available_invites : Option ℤ
  pub state : Option String
  pub online : Option Bool

pub record Assertion : Type 0 where
  pub states : List StateAssertion
  pub nodes : List NodeAssertion

pub record Ceremony (F : Type 0) : Type 0 where
  pub epochs : Bytes
  pub user_ceremonies : List (UserCeremony F)
  pub assertion : Option Assertion

pub record NodeUpdates : Type 0 where
  pub delayed : DelayedEpochsNodes
  pub step_delay_sec : ℤ
  pub command : String

pub record Delegations : Type 0 where
  pub epochs_nodes : EpochsNodes
  pub delegatee : ℤ

pub record AddStakes (F : Type 0) : Type 0 where
  pub epochs_nodes : EpochsNodes
  pub amount : F

pub record MultiBotPools (G : Type 0) : Type 0 where
  pub sizes : List ℤ
  pub bot_delegators_rate : G

pub record KillDelegators : Type 0 where
  pub epochs_nodes : EpochsNodes
  pub delegatee : ℤ

pub record KillInvitees : Type 0 where
  pub epochs_nodes : EpochsNodes
  pub inviter : ℤ

pub record StoreToIpfsTxs : Type 0 where
  pub delayed : DelayedEpochsNodes
  pub sizes : List ℤ
  pub step_delay_sec : ℤ

pub record IncomingScenario (F G : Type 0) : Type 0 where
  pub users : ℤ
  pub invite_amount : Option F
  pub ceremony_min_offset : ℤ
  pub new_users : List (NewUsers F)
  pub new_users_after_flips : List (NewUsers F)
  pub node_starts : List DelayedEpochsNodes
  pub node_stops : List DelayedEpochsNodes
  pub node_onlines : List EpochsNodes
  pub node_offlines : List EpochsNodes
  pub delayed_keys : List EpochsNodes
  pub txs : List Transactions
  pub default_answer : ℕ
  pub ceremonies : List (Ceremony F)
  pub node_updates : List NodeUpdates
  pub delegations : List Delegations
  pub kill_delegators : List KillDelegators
  pub kill_invitees : List KillInvitees
  pub undelegations : List EpochsNodes
  pub multi_bot_pools : Option (MultiBotPools G)
  pub store_to_ipfs_txs : List StoreToIpfsTxs
  pub kills : List EpochsNodes
  pub add_stakes : List (AddStakes F)
