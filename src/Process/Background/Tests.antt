-- ===== src/Process/Background/Tests.antt =====
-- Runs of the background transactions.
use idena_test_go.Prelude.{◌≡◌, refl, true, false, List, [], ◌∷◌, codes, arith}
use idena_test_go.Prelude.Int.{pos}
use idena_test_go.Prelude.Dict.{Dict, lookup}
use idena_test_go.Prelude.Result.{ok, panic, index_out_of_range}
use idena_test_go.Scenario.Model.{Txs}
use idena_test_go.Process.Background.{User, filter_active_users, generate_txs, Transfer}
use idena_test_go.Process.Background.Rounds.{generate_txs-turns}

abbrev a : User
a = record { address = codes "a"; is_active = true }

abbrev b : User
b = record { address = codes "b"; is_active = false }

abbrev c : User
c = record { address = codes "c"; is_active = true }

abbrev txs : Txs
txs = record { period = pos 5; users = pos 2 ∷ pos 1 ∷ pos 0 ∷ [] }

abbrev epoch_txs : Dict Txs
epoch_txs = (pos 3, txs) ∷ []

abbrev sent : List Transfer
sent = (codes "c", codes "a") ∷ (codes "a", codes "c") ∷ (codes "c", codes "a") ∷ []

test_generate_txs : generate_txs epoch_txs (pos 3) (a ∷ b ∷ c ∷ []) 3 ≡ ok sent
unfolding generate_txs
test_generate_txs = refl

test_absent_user : generate_txs epoch_txs (pos 3) (a ∷ b ∷ []) 3 ≡ panic index_out_of_range
unfolding generate_txs
test_absent_user = refl

test_one_user : generate_txs epoch_txs (pos 3) (a ∷ b ∷ b ∷ []) 3 ≡ ok []
unfolding generate_txs
test_one_user = refl

generate_txs-turns_example : generate_txs epoch_txs (pos 3) (a ∷ b ∷ c ∷ []) 3 ≡ ok sent
unfolding lookup filter_active_users
generate_txs-turns_example =
    generate_txs-turns epoch_txs (pos 3) (a ∷ b ∷ c ∷ []) (c ∷ a ∷ []) txs 3 refl refl (omega arith)
