-- ===== src/Process/Txs/Kills.antt =====
-- process/delegation.go and process/kill.go: the transactions that kill delegators or invitees.
use idena_test_go.Prelude.{
  ℕ, ◌≡◌, refl, sym, ap, ◌∙◌, true, List, [], ◌∷◌, ◌++◌, append_assoc, append-nil, some, Bytes,
  length,
}
use idena_test_go.Prelude.Int.{ℤ}
use idena_test_go.Prelude.Dict.{Dict}
use idena_test_go.Prelude.Result.{ok, panic, endless_loop, index}
use idena_test_go.Process.Txs.{
  Sent, Sender, then_run, is_mined, wait_for_mined_transaction, send_and_wait, transfer, to_user,
  of_epoch, kill_loop, wait_for_group, kill_all, kill_delegators, kill_invitees,
}

-- The node replies to everything with the hash of a transaction that gets a block in time.
abbrev pub Accepts : {F : Type 0} → Sender F → Type 0
Accepts {F} s =
    (x : Sent F) (n : ℕ)
    → (hash : Bytes) × (s.reply x n ≡ some hash)
      × (is_mined (s.in_block hash) (s.ticks hash) 0 ≡ true)

module _ {F : Type 0} (s : Sender F) where
  -- The transactions for users of the process, one for each of them.
  abbrev pub Transfers : ℕ → List ℤ → List (Sent F) → Type 0
  Transfers tx_type [] txs = txs ≡ []
  Transfers tx_type (user ∷ users) txs =
      (to : Bytes) × (rest : List (Sent F)) × (index s.users user ≡ ok to)
      × (txs ≡ transfer s tx_type to ∷ rest)
      × Transfers tx_type users rest

  accepted :
      (x : Sent F) (sent : List (Sent F))
      → Accepts s
      → send_and_wait s x sent ≡ (sent ++ (x ∷ []), ok tt)
  unfolding send_and_wait wait_for_mined_transaction
  accepted x sent h = let (hash, e, mined) = h x (length sent) in rw (send_and_wait, e, mined) refl

  kill_loop-Transfers :
      (tx_type : ℕ) (users : List ℤ) (txs sent : List (Sent F))
      → Accepts s
      → Transfers tx_type users txs
      → kill_loop s tx_type users sent ≡ (sent ++ txs, ok tt)
  unfolding kill_loop
  kill_loop-Transfers tx_type [] txs sent h none_left =
      ap (λ l. (l, ok tt)) (sym (append-nil sent) ∙ ap (λ l. sent ++ l) (sym none_left))
  kill_loop-Transfers tx_type (user ∷ users) txs sent h (to, rest, at, e, more) =
      let x = transfer s tx_type to in
      ap (λ r. then_run (to_user s tx_type r sent) (kill_loop s tx_type users)) at
      ∙ ap (λ r. then_run r (kill_loop s tx_type users)) (accepted x sent h)
      ∙ kill_loop-Transfers tx_type users rest (sent ++ (x ∷ [])) h more
      ∙ ap (λ l. (l, ok tt)) (append_assoc sent (x ∷ []) rest ∙ ap (λ l. sent ++ l) (sym e))

  kill_all-Transfers :
      (tx_type : ℕ) (user : ℤ) (users : List ℤ) (txs sent : List (Sent F))
      → Accepts s
      → Transfers tx_type (user ∷ users) txs
      → kill_all s tx_type (some (user ∷ users)) sent ≡ (sent ++ txs, panic endless_loop)
  kill_all-Transfers tx_type user users txs sent h all =
      ap (λ r. then_run r (wait_for_group s (user ∷ users)))
        (kill_loop-Transfers tx_type (user ∷ users) txs sent h all)

-- Where the node accepts everything in time, and the delegators and the invitees that the scenario asks a
-- user to kill are users of the process, it sends one transaction for each of them, in the order of the
-- scenario, and then waits for ever: `killDelegators` and `killInvitees` do not end, if there is at
-- least one of them to kill.
pub kills-endless :
    {F : Type 0} (s : Sender F) (delegators invitees : Dict (Dict (List ℤ))) (delegator invitee : ℤ)
    (other_delegators other_invitees : List ℤ) (txs txs' sent : List (Sent F))
    → Accepts s
    → of_epoch s delegators ≡ some (delegator ∷ other_delegators)
    → of_epoch s invitees ≡ some (invitee ∷ other_invitees)
    → Transfers s 0x14 (delegator ∷ other_delegators) txs
    → Transfers s 0xA (invitee ∷ other_invitees) txs'
    → (kill_delegators s delegators sent ≡ (sent ++ txs, panic endless_loop))
      × (kill_invitees s invitees sent ≡ (sent ++ txs', panic endless_loop))
unfolding kill_delegators kill_invitees
kills-endless s delegators invitees delegator invitee others others' txs txs' sent h d i all all' =
    (
      ap (λ users. kill_all s 0x14 users sent) d
          ∙ kill_all-Transfers s 0x14 delegator others txs sent h all,
      ap (λ users. kill_all s 0xA users sent) i
          ∙ kill_all-Transfers s 0xA invitee others' txs' sent h all',
    )
