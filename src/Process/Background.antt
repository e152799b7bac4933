-- ===== src/Process/Background.antt =====
-- process/background.go: the transactions that a process sends while an epoch lasts.
mod Tests
pub mod Rounds
use idena_test_go.Prelude.{
  ℕ, zero, suc, ◌+◌, Bool, true, false, List, [], ◌∷◌, Option, none, some, Bytes, length, ltb,
  if◌then◌else◌,
}
use idena_test_go.Prelude.Int.{ℤ, pos, negsuc, ◌+ℤ◌, ◌==ℤ◌}
use idena_test_go.Prelude.Dict.{Dict, lookup}
use idena_test_go.Prelude.Result.{Result, ok, err, panic, index, ◌>>=◌}
use idena_test_go.Scenario.Model.{Txs}

pub record User : Type 0 where
  pub address : Bytes
  pub is_active : Bool

-- `filterActiveUsers`, for the users of the process.
unfoldable pub filter_active_users : List User → List ℤ → Result (List User)
filter_active_users users [] = ok []
filter_active_users users (k ∷ ks) =
    let rest = filter_active_users users ks in
    index users k >>= (λ u. rest >>= (λ us. ok (if u.is_active then u ∷ us else us)))

-- The index after another one in a list of a length: `i++; if i == len { i = 0 }`.
abbrev pub next_index : ℕ → ℤ → ℤ
next_index size i = if i +ℤ pos 1 ==ℤ pos size then pos 0 else i +ℤ pos 1

-- A transaction: the addresses of its sender and its recipient. An error in sending it is only logged.
abbrev pub Transfer : Type 0
Transfer = Bytes × Bytes

-- The loop of `generateTxs` from a sender on, for as many rounds as it has before the flag is set.
unfoldable pub generate_loop : List User → (rounds : ℕ) → (sender_idx : ℤ) → Result (List Transfer)
unfolding ◌+ℤ◌
generate_loop users zero sender_idx = ok []
generate_loop users (suc n) sender_idx =
    let sender_idx' = next_index (length users) sender_idx in
    do
      sender ← index users sender_idx'
      recipient ← index users (next_index (length users) sender_idx')
      rest ← generate_loop users n sender_idx'
      ok ((sender.address, recipient.address) ∷ rest)

abbrev pub with_users : ℕ → Result (List User) → Result (List Transfer)
with_users rounds (ok active) =
    if ltb (length active) 2 then ok [] else generate_loop active rounds (negsuc 0)
with_users rounds (err e) = err e
with_users rounds (panic x) = panic x

-- `generateTxs`
unfoldable pub generate_txs :
    Dict Txs → (test_index : ℤ) (users : List User) (rounds : ℕ) → Result (List Transfer)
unfolding generate_loop filter_active_users lookup
generate_txs epoch_txs test_index users rounds = elim (lookup test_index epoch_txs) [
  | none ↦ ok []
  | some txs ↦ with_users rounds (filter_active_users users txs.users)
]
