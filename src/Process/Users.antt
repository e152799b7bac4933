-- ===== src/Process/Users.antt =====
-- process/process.go and process/init.go: how the users of a process are created.
pub mod Chosen
pub mod Numbers
pub mod Invited
mod Tests
use idena_test_go.Prelude.{
  ℕ, zero, suc, ◌+◌, ◌-◌, Bool, false, ◌||◌, List, [], ◌∷◌, ◌++◌, Option, none, some, Bytes, codes,
  length, get_elem?, ◌==◌, if◌then◌else◌,
}
use idena_test_go.Prelude.Int.{ℤ, pos, pos_part, ◌==ℤ◌}
use idena_test_go.Prelude.Decimal.{itoa}
use idena_test_go.Prelude.Dict.{Dict}
use idena_test_go.Prelude.Result.{Result, ok, index, ◌>>=◌}
use idena_test_go.Scenario.Model.{NewUsers}
use idena_test_go.Node.{Node}

-- What users of a process are created from: its settings, with the ports as numbers that are not negative,
-- the node without what is set for a user, whether the rate of nodes of low power is 0 and whether a count of
-- them among others is above it, the keys of idena-go in the order in which they are made, and whether
-- the scenario shares the node of a user.
pub record Settings : Type 0 where
  pub first_rpc_port : ℕ
  pub first_ipfs_port : ℕ
  pub first_port : ℕ
  pub first_port_offset : ℕ
  pub node : Node
  pub random_api_keys : Bool
  pub predefined_api_keys : List Bytes
  pub generated_key : ℕ → Bytes
  pub no_low_power_rate : Bool
  pub above_low_power_rate : (low_power_count own_nodes : ℕ) → Bool
  pub is_node_shared : ℕ → Bool

-- A user of the process: its own node, or the index of the user whose node it shares, and what its client
-- is made from.
pub record ProcessUser : Type 0 where
  pub index : ℕ
  pub node : Option Node
  pub parent : Option ℕ
  pub client_port : ℕ
  pub client_index : ℕ
  pub api_key : Bytes

-- What changes when users are created; `generated` is the number of keys that were made.
pub record Users : Type 0 where
  pub users : List ProcessUser
  pub low_power_profile_count : ℕ
  pub generated : ℕ

abbrev pub shares_node : {F : Type 0} → ℕ → NewUsers F → Bool
shares_node index new_users = elim new_users.shared_node [
  | none ↦ false
  | some shared ↦ shared ==ℤ pos index
]

abbrev pub any_shares : {F : Type 0} → ℕ → List (NewUsers F) → Bool
any_shares index [] = false
any_shares index (n ∷ new_users) = shares_node index n || any_shares index new_users

abbrev pub any_epoch_shares : {F : Type 0} → ℕ → Dict (List (NewUsers F)) → Bool
any_epoch_shares index [] = false
any_epoch_shares index ((epoch, n) ∷ epochs) = any_shares index n || any_epoch_shares index epochs

-- `isNodeShared`
unfoldable pub is_node_shared : {F : Type 0} → ℕ → (before after : Dict (List (NewUsers F))) → Bool
is_node_shared index before after = any_epoch_shares index before || any_epoch_shares index after

-- The key of a user that is not among the given ones, and the number of keys that were made after it.
unfoldable pub new_api_key : Settings → (user_index generated : ℕ) → Bytes × ℕ
unfolding itoa
new_api_key s user_index generated =
    if s.random_api_keys
    then (s.generated_key generated, suc generated)
    else (codes "testApiKey" ++ itoa user_index, generated)

-- `generateApiKey`
unfoldable pub generate_api_key : Settings → (user_index generated : ℕ) → Bytes × ℕ
unfolding new_api_key
generate_api_key s user_index generated = elim (get_elem? s.predefined_api_keys user_index) [
  | some key ↦ (key, generated)
  | none ↦ new_api_key s user_index generated
]

-- `getNodeDataDir`
unfoldable pub get_node_data_dir : (index port : ℕ) → Bytes
unfolding itoa
get_node_data_dir index port = codes "datadir-" ++ (itoa index ++ b'-' ∷ itoa port)

abbrev pub own_nodes : List ProcessUser → ℕ
own_nodes [] = 0
own_nodes (u ∷ users) = elim u.node [ none ↦ own_nodes users | some node ↦ suc (own_nodes users) ]

-- The profiles of a node.
pub data Profile : Type 0 where
  shared_profile low_power_profile no_profile : Profile

abbrev pub profile_text : Profile → Bytes
profile_text shared_profile = codes "shared"
profile_text low_power_profile = codes "lowpower"
profile_text no_profile = []

-- `defineNewNodeProfile`
unfoldable pub define_new_node_profile : Settings → (is_god is_shared : Bool) → Users → Profile
define_new_node_profile s is_god is_shared state =
    let own = own_nodes state.users in
    if is_shared || is_god
    then shared_profile
    else if s.no_low_power_rate || own == 0
    then no_profile
    else if s.above_low_power_rate state.low_power_profile_count own
    then no_profile
    else low_power_profile

abbrev pub low_power_of : Profile → ℕ
low_power_of low_power_profile = 1
low_power_of _ = 0

abbrev pub get_rpc_port : Settings → ℕ → ℕ
get_rpc_port s index = s.first_rpc_port + s.first_port_offset + index

-- The node of a user, which runs the command of its new users if they have one.
unfoldable pub node_of : Settings → ℕ → (command : Bytes) → (api_key : Bytes) → Profile → Node
unfolding get_node_data_dir
node_of s index command api_key profile = record s.node {
  index = index;
  node_data_dir = get_node_data_dir index (get_rpc_port s index);
  port = s.first_port + s.first_port_offset + index;
  rpc_port = get_rpc_port s index;
  ipfs_port = s.first_ipfs_port + s.first_port_offset + index;
  api_key_value = api_key;
  profile = profile_text profile;
  is_shared = s.is_node_shared index;
  exec_command_name = elim command [ [] ↦ s.node.exec_command_name | c ∷ name ↦ c ∷ name ];
}

-- A user with its own node.
unfoldable pub own_user : Settings → (command : Bytes) → Users → ℕ → Users
unfolding generate_api_key define_new_node_profile node_of
own_user s command state index =
    let (api_key, generated) = generate_api_key s index state.generated in
    let profile = define_new_node_profile s false (s.is_node_shared index) state in
    record {
      users =
          state.users
          ++ record {
            index = index;
            node = some (node_of s index command api_key profile);
            parent = none;
            client_port = get_rpc_port s index;
            client_index = index;
            api_key = api_key;
          }
            ∷ [];
      low_power_profile_count = state.low_power_profile_count + low_power_of profile;
      generated = generated;
    }

-- A user of the node of another one, for whose client a key is generated again.
unfoldable pub shared_user : Settings → Users → (index shared : ℕ) → ProcessUser → Users
unfolding generate_api_key
shared_user s state index shared parent =
    let (api_key, generated) = generate_api_key s parent.index state.generated in
    record {
      users =
          state.users
          ++ record {
            index = index;
            node = none;
            parent = some parent.index;
            client_port = get_rpc_port s shared;
            client_index = parent.index;
            api_key = api_key;
          }
            ∷ [];
      low_power_profile_count = state.low_power_profile_count;
      generated = generated;
    }

-- `createUser`
unfoldable pub create_user : Settings → (command : Bytes) → Option ℤ → Users → ℕ → Result Users
unfolding own_user shared_user
create_user s command none state at = ok (own_user s command state at)
create_user s command (some shared) state at =
    index state.users shared >>= (λ parent. ok (shared_user s state at (pos_part shared) parent))

-- The loop of `createUsers`, with `n` users left of which the first gets the index.
unfoldable pub create_loop :
    Settings → (command : Bytes) → Option ℤ → (n at : ℕ) → Users → Result Users
unfolding create_user
create_loop s command shared zero at state = ok state
create_loop s command shared (suc n) at state =
    create_user s command shared state at >>= create_loop s command shared n (suc at)

-- `createUsers`
unfoldable pub create_users :
    Settings → (count : ℕ) → (command : Bytes) → Option ℤ → Users → Result Users
unfolding create_loop
create_users s count command shared state =
    create_loop s command shared count (length state.users) state
