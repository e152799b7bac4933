-- ===== src/Process/Txs/Tests.antt =====
-- Runs of the transactions of a test.
use idena_test_go.Prelude.{
  ℕ, ◌≡◌, refl, true, List, [], ◌∷◌, none, some, codes, ◌==◌, if◌then◌else◌,
}
use idena_test_go.Prelude.Int.{ℤ, pos}
use idena_test_go.Prelude.Dict.{Dict, lookup}
use idena_test_go.Prelude.Result.{ok, panic, exited, endless_loop, tx_not_mined, index_out_of_range}
use idena_test_go.Process.Txs.{
  Sent, transaction, ipfs_data, store_to_ipfs, Sender, transfer, kill, delegate, add_stake,
  kill_delegators, kill_invitees, send_store_to_ipfs_txs,
}
use idena_test_go.Process.Txs.Kills.{kills-endless}

-- User 1 of three, in the first test. A transaction gets its block at the second tick of three.
abbrev sender : Sender ℕ
sender = record {
  user = pos 1;
  address = codes "b";
  epoch = pos 0;
  users = codes "a" ∷ codes "b" ∷ codes "c" ∷ [];
  zero_amount = 0;
  reply = λ x n. some (codes "h");
  ticks = λ hash. 3;
  in_block = λ hash n. if n == 1 then some true else none;
  random_bytes = λ size n. 1 ∷ [];
}

test_kill : kill sender ((pos 0, pos 2 ∷ pos 1 ∷ []) ∷ []) [] ≡ (transaction 3 none 0 0 ∷ [], ok tt)
unfolding kill
test_kill = refl

test_delegate :
    delegate sender ((pos 0, (pos 1, pos 3) ∷ []) ∷ []) [] ≡ ([], panic index_out_of_range)
unfolding delegate
test_delegate = refl

test_add_stake :
    add_stake (record sender { ticks = λ hash. 1 }) ((pos 0, (pos 1, 7) ∷ []) ∷ []) []
    ≡ (transaction 22 (some (codes "b")) 7 0 ∷ [], panic (exited tx_not_mined))
unfolding add_stake
test_add_stake = refl

test_store :
    send_store_to_ipfs_txs sender
      ((pos 0, (pos 1, record { sizes = pos 5 ∷ []; delay = pos 0; step_delay = pos 0 }) ∷ []) ∷ [])
      []
    ≡ (ipfs_data (codes "0x01") true ∷ store_to_ipfs (codes "h") ∷ [], ok tt)
unfolding send_store_to_ipfs_txs idena_test_go.Process.Flips.to_hex
test_store = refl

abbrev to_kill : Dict (Dict (List ℤ))
to_kill = (pos 0, (pos 1, pos 2 ∷ pos 0 ∷ []) ∷ []) ∷ []

abbrev killed : ℕ → List (Sent ℕ)
killed tx_type = transfer sender tx_type (codes "c") ∷ transfer sender tx_type (codes "a") ∷ []

kills-endless_example :
    (kill_delegators sender to_kill [] ≡ (killed 20, panic endless_loop))
    × (kill_invitees sender to_kill [] ≡ (killed 10, panic endless_loop))
unfolding lookup idena_test_go.Process.Txs.is_mined
kills-endless_example =
    kills-endless sender to_kill to_kill (pos 2) (pos 2) (pos 0 ∷ []) (pos 0 ∷ []) (killed 20)
      (killed 10) [] (λ x n. (codes "h", refl, refl)) refl refl
      (codes "c", _, refl, refl, (codes "a", [], refl, refl, refl))
      (codes "c", _, refl, refl, (codes "a", [], refl, refl, refl))
