-- ===== src/Process/Txs.antt =====
-- process/delegation.go, process/kill.go, process/staking.go and process/store_to_ipfs.go: the
-- transactions that the scenario asks a user to send in a test.
mod Tests
pub mod Kills
use idena_test_go.Prelude.{
  ℕ, zero, suc, ◌%◌, ◌-◌, Bool, true, false, List, [], ◌∷◌, ◌++◌, Option, none, some, Bytes, length,
  if◌then◌else◌,
}
use idena_test_go.Prelude.Int.{ℤ, pos, negsuc, ◌==ℤ◌}
use idena_test_go.Prelude.Dict.{Dict, lookup}
use idena_test_go.Prelude.Result.{
  Result, ok, err, panic, exited, endless_loop, tx_refused, tx_not_mined, index,
}
use idena_test_go.Scenario.Model.{StoreToIpfsTxs}
use idena_test_go.Process.Flips.{to_hex}
use idena_test_go.Process.Hashes.{to_uint32}

-- What a user sends to its node, with the arguments of `SendTransaction`, `AddIpfsData` and `StoreToIpfs`.
pub data Sent (F : Type 0) : Type 0 where
  transaction : (tx_type : ℕ) (to : Option Bytes) (amount max_fee : F) → Sent F
  ipfs_data : (data_hex : Bytes) (pin : Bool) → Sent F
  store_to_ipfs : (cid : Bytes) → Sent F

-- The user, the test, the addresses of the users of the process, and the node: its reply to what is sent
-- after `n` others, none for an error; how many ticks the wait for a transaction has; and at each tick
-- whether the transaction has a block, none for an error.
pub record Sender (F : Type 0) : Type 0 where
  pub user : ℤ
  pub address : Bytes
  pub epoch : ℤ
  pub users : List Bytes
  pub zero_amount : F
  pub reply : Sent F → ℕ → Option Bytes
  pub ticks : Bytes → ℕ
  pub in_block : Bytes → ℕ → Option Bool
  -- `random.GetRandomBytes`, with the number of things sent before
  pub random_bytes : ℕ → ℕ → Bytes

-- What has been sent, and how the call ends.
abbrev pub Run : Type 0 → Type 0
Run F = List (Sent F) × Result (Unit {0})

abbrev pub then_run : {F : Type 0} → Run F → (List (Sent F) → Run F) → Run F
then_run (sent, ok done) next = next sent
then_run (sent, err e) next = (sent, err e)
then_run (sent, panic x) next = (sent, panic x)

-- The loop of `waitForMinedTransaction`, with `n` ticks left: whether it returns nil.
unfoldable pub is_mined : (ℕ → Option Bool) → (n at : ℕ) → Bool
is_mined in_block zero at = false
is_mined in_block (suc n) at =
    let rest = is_mined in_block n (suc at) in
    elim (in_block at) [ none ↦ rest | some has_block ↦ if has_block then true else rest ]

module _ {F : Type 0} (s : Sender F) where
  -- `waitForMinedTransaction` and the exit on its error.
  unfoldable pub wait_for_mined_transaction : Bytes → Result (Unit {0})
  unfolding is_mined
  wait_for_mined_transaction hash =
      if is_mined (s.in_block hash) (s.ticks hash) 0 then ok tt else panic (exited tx_not_mined)

  -- Something is sent, and its transaction waited for.
  unfoldable pub send_and_wait : Sent F → List (Sent F) → Run F
  unfolding wait_for_mined_transaction
  send_and_wait x sent = elim (s.reply x (length sent)) [
    | none ↦ (sent ++ (x ∷ []), panic (exited tx_refused))
    | some hash ↦ (sent ++ (x ∷ []), wait_for_mined_transaction hash)
  ]

  -- `SendTransaction` with a recipient and no amount.
  abbrev pub transfer : ℕ → Bytes → Sent F
  transfer tx_type to = transaction tx_type (some to) s.zero_amount s.zero_amount

  abbrev pub to_user : ℕ → Result Bytes → List (Sent F) → Run F
  to_user tx_type (ok to) sent = send_and_wait (transfer tx_type to) sent
  to_user tx_type (err e) sent = (sent, err e)
  to_user tx_type (panic x) sent = (sent, panic x)

  -- `delegateTo`, `sendAddStakeTx`, and a transaction without recipient.
  unfoldable pub delegate_to : Bytes → List (Sent F) → Run F
  unfolding send_and_wait
  delegate_to delegatee sent = send_and_wait (transfer 0x12 delegatee) sent

  unfoldable pub send_add_stake_tx : F → List (Sent F) → Run F
  unfolding send_and_wait
  send_add_stake_tx amount sent =
      send_and_wait (transaction 0x16 (some s.address) amount s.zero_amount) sent

  -- `transactions[epoch][user]`, where both keys are present.
  abbrev pub of_user : {A : Type 0} → Option (Dict A) → Option A
  of_user none = none
  of_user (some users) = lookup s.user users

  abbrev pub of_epoch : {A : Type 0} → Dict (Dict A) → Option A
  of_epoch epochs = of_user (lookup s.epoch epochs)

  -- `u.GetIndex() == uIndex` for one of the users of the epoch.
  abbrev pub is_listed : List ℤ → Bool
  is_listed [] = false
  is_listed (user ∷ users) = if s.user ==ℤ user then true else is_listed users

  abbrev pub is_asked : Option (List ℤ) → Bool
  is_asked none = false
  is_asked (some users) = is_listed users

  -- A transaction without a recipient, where the user is one of the scenario's.
  abbrev pub when_asked : ℕ → Dict (List ℤ) → List (Sent F) → Run F
  when_asked tx_type epochs sent =
      if is_asked (lookup s.epoch epochs)
      then send_and_wait (transaction tx_type none s.zero_amount s.zero_amount) sent
      else (sent, ok tt)

  unfoldable pub kill : Dict (List ℤ) → List (Sent F) → Run F
  unfolding send_and_wait lookup
  kill kills sent = when_asked 0x3 kills sent

  unfoldable pub undelegate : Dict (List ℤ) → List (Sent F) → Run F
  unfolding send_and_wait lookup
  undelegate undelegations sent = when_asked 0x13 undelegations sent

  unfoldable pub delegate : Dict (Dict ℤ) → List (Sent F) → Run F
  unfolding delegate_to lookup
  delegate delegations sent = elim (of_epoch delegations) [
    | none ↦ (sent, ok tt)
    | some user ↦ to_user 0x12 (index s.users user) sent
  ]

  unfoldable pub add_stake : Dict (Dict F) → List (Sent F) → Run F
  unfolding send_add_stake_tx lookup
  add_stake add_stakes sent = elim (of_epoch add_stakes) [
    | none ↦ (sent, ok tt)
    | some amount ↦ send_add_stake_tx amount sent
  ]

  -- The loop of `killDelegators` and of `killInvitees`, over the users to kill.
  unfoldable pub kill_loop : ℕ → List ℤ → List (Sent F) → Run F
  unfolding send_and_wait
  kill_loop tx_type [] sent = (sent, ok tt)
  kill_loop tx_type (user ∷ users) sent =
      then_run (to_user tx_type (index s.users user) sent) (kill_loop tx_type users)

  -- `wg.Wait()` on a group to which as many as there are users have been added, and of which none has been
  -- taken off: the loop does not call `wg.Done()`.
  abbrev pub wait_for_group : List ℤ → List (Sent F) → Run F
  wait_for_group [] sent = (sent, ok tt)
  wait_for_group (user ∷ users) sent = (sent, panic endless_loop)

  abbrev pub kill_all : ℕ → Option (List ℤ) → List (Sent F) → Run F
  kill_all tx_type none sent = (sent, ok tt)
  kill_all tx_type (some users) sent =
      then_run (kill_loop tx_type users sent) (wait_for_group users)

  unfoldable pub kill_delegators : Dict (Dict (List ℤ)) → List (Sent F) → Run F
  unfolding kill_loop lookup
  kill_delegators epochs sent = kill_all 0x14 (of_epoch epochs) sent

  unfoldable pub kill_invitees : Dict (Dict (List ℤ)) → List (Sent F) → Run F
  unfolding kill_loop lookup
  kill_invitees epochs sent = kill_all 0xA (of_epoch epochs) sent

  -- `sendStoreToIpfsTx`: `uint32(size)` bytes are added, and their identifier is stored.
  abbrev pub store_cid : Option Bytes → List (Sent F) → Run F
  store_cid none sent = (sent, panic (exited tx_refused))
  store_cid (some cid) sent = send_and_wait (store_to_ipfs cid) sent

  unfoldable pub send_store_to_ipfs_tx : ℤ → List (Sent F) → Run F
  unfolding send_and_wait
  send_store_to_ipfs_tx size sent =
      let x = ipfs_data (to_hex (s.random_bytes (to_uint32 size) (length sent))) true in
      store_cid (s.reply x (length sent)) (sent ++ (x ∷ []))

  -- The loop of `sendStoreToIpfsTxs`, whose waits between the transactions are left out.
  unfoldable pub store_loop : List ℤ → List (Sent F) → Run F
  unfolding send_store_to_ipfs_tx
  store_loop [] sent = (sent, ok tt)
  store_loop (size ∷ sizes) sent = then_run (send_store_to_ipfs_tx size sent) (store_loop sizes)

  unfoldable pub send_store_to_ipfs_txs : Dict (Dict StoreToIpfsTxs) → List (Sent F) → Run F
  unfolding store_loop lookup
  send_store_to_ipfs_txs txs sent = elim (of_epoch txs) [
    | none ↦ (sent, ok tt)
    | some of_this ↦ store_loop of_this.sizes sent
  ]
