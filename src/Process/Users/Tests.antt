-- ===== src/Process/Users/Tests.antt =====
-- Runs of the creation of users.
use idena_test_go.Prelude.{
  ℕ, ◌≡◌, ◌≢◌, refl, inl, inr, true, false, List, [], ◌∷◌, ◌++◌, none, some, length, map, arith,
}
use idena_test_go.Prelude.Int.{pos}
use idena_test_go.Prelude.Result.{ok}
use idena_test_go.Node.{Node}
use idena_test_go.Node.Memory.{test_node}
use idena_test_go.Node.Setup.{get_config_file_full_name, log_file, node_dir}
use idena_test_go.Process.Users.{Settings, ProcessUser, Users, create_users, node_of, no_profile}
use idena_test_go.Process.Users.Chosen.{new_users}
use idena_test_go.Process.Users.Numbers.{IsNumbered, create_users-IsNumbered, IsNumbered-apart}
use idena_test_go.Process.Users.Invited.{new_users_lem}

abbrev settings : Settings
settings = record {
  first_rpc_port = 9000;
  first_ipfs_port = 5000;
  first_port = 4000;
  first_port_offset = 10;
  node = test_node;
  random_api_keys = true;
  predefined_api_keys = [];
  generated_key = λ n. n ∷ [];
  no_low_power_rate = true;
  above_low_power_rate = λ low own. false;
  is_node_shared = λ index. false;
}

abbrev node_at : ℕ → Node
unfolding node_of
node_at i = node_of settings i [] (i ∷ []) no_profile

abbrev own_at : ℕ → ProcessUser
unfolding node_at
own_at i = record {
  index = i;
  node = some (node_at i);
  parent = none;
  client_port = 9010;
  client_index = i;
  api_key = i ∷ [];
}

abbrev one_user : Users
one_user = record { users = own_at 0 ∷ []; low_power_profile_count = 0; generated = 1 }

one_user-IsNumbered : IsNumbered settings 0 one_user.users
unfolding own_at node_at node_of
one_user-IsNumbered =
    ((refl, inr (node_at 0, refl, (refl, refl, refl, refl, refl, refl, refl))), tt)

-- A user of a shared node gets another key than the node, when keys are random.
abbrev keys : Users → List (List ℕ)
keys state = map (λ u. u.api_key) state.users

abbrev two_users : Users
two_users = record one_user {
  users =
      own_at 0
      ∷ record {
        index = 1;
        node = none;
        parent = some 0;
        client_port = 9010;
        client_index = 0;
        api_key = 1 ∷ [];
      }
      ∷ [];
  generated = 2;
}

test_shared_key : create_users settings 1 [] (some (pos 0)) one_user ≡ ok two_users
unfolding create_users
test_shared_key = refl

create_users-IsNumbered_example :
    (new : List ProcessUser) × (after : Users) × (create_users settings 2 [] (some (pos 0)) one_user
      ≡ ok after)
    × (after.users ≡ one_user.users ++ new)
    × (length new ≡ 2)
    × IsNumbered settings 0 after.users
create_users-IsNumbered_example =
    create_users-IsNumbered settings 2 [] (some (pos 0)) one_user one_user-IsNumbered
      (inr (0, refl, omega arith))

abbrev pair_of_users : List ProcessUser
pair_of_users = own_at 0 ∷ own_at 1 ∷ []

pair_of_users-IsNumbered : IsNumbered settings 0 pair_of_users
unfolding own_at node_at node_of
pair_of_users-IsNumbered = (
  (refl, inr (node_at 0, refl, (refl, refl, refl, refl, refl, refl, refl))),
  ((refl, inr (node_at 1, refl, (refl, refl, refl, refl, refl, refl, refl))), tt),
)

IsNumbered-apart_example :
    ((node_at 0).rpc_port ≢ (node_at 1).rpc_port)
    × ((node_at 0).port ≢ (node_at 1).port)
    × ((node_at 0).ipfs_port ≢ (node_at 1).ipfs_port)
    × (get_config_file_full_name (node_at 0) ≢ get_config_file_full_name (node_at 1))
    × (log_file (node_at 0) ≢ log_file (node_at 1))
    × (node_dir (node_at 0) ≢ node_dir (node_at 1))
unfolding own_at
IsNumbered-apart_example =
    IsNumbered-apart settings 0 1 pair_of_users (own_at 0) (own_at 1) (node_at 0) (node_at 1)
      pair_of_users-IsNumbered refl refl refl refl (omega arith)

new_users_lem_example :
    (after : Users) × (to_start : List ProcessUser) × (users : List ProcessUser) × (new_users
        settings true
        (pos 3)
        []
        none
        one_user
      ≡ ok (after, (to_start, users)))
    × (after.users ≡ one_user.users ++ to_start)
    × (length users ≡ 3)
    × (users ≡ after.users)
new_users_lem_example =
    new_users_lem settings true 2 [] none one_user one_user-IsNumbered (inl refl)
