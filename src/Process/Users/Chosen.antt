-- ===== src/Process/Users/Chosen.antt =====
-- process/process.go: which users `startNewNodesAndSendInvites` creates, starts and invites.
use idena_test_go.Prelude.{
  ℕ, zero, suc, ◌-◌, Bool, ◌&&◌, List, Option, Bytes, length, take, drop, leb, ◌==◌, if◌then◌else◌,
}
use idena_test_go.Prelude.Int.{ℤ, pos, negsuc, ◌+ℤ◌}
use idena_test_go.Prelude.Result.{Result, ok, panic, index_out_of_range, ◌>>=◌}
use idena_test_go.Process.Users.{Settings, ProcessUser, Users, create_users}

-- `xs[low:high]`
unfoldable pub slice : {A : Type 0} → List A → (low : ℕ) → (high : ℤ) → Result (List A)
slice xs low (negsuc high) = panic index_out_of_range
slice xs low (pos high) =
    if leb low high && leb high (length xs)
    then ok (take (high - low) (drop low xs))
    else panic index_out_of_range

-- Users are only created where there are some to create.
unfoldable pub create_if : Settings → ℤ → (command : Bytes) → Option ℤ → Users → Result Users
unfolding create_users
create_if s (pos (suc n)) command shared state = create_users s (suc n) command shared state
create_if s (pos zero) command shared state = ok state
create_if s (negsuc n) command shared state = ok state

-- Of the users behind the creation: all, those to start, and those that get invites.
unfoldable pub chosen :
    (exclude_god_node : Bool)
    → (current : ℕ) → (count : ℤ) → Users
    → Result (Users × (List ProcessUser × List ProcessUser))
unfolding slice
chosen exclude_god_node current count after = do
  to_start ← slice after.users current (pos current +ℤ count)
  users ←
      if exclude_god_node
      then slice after.users (current - 1) (pos current +ℤ count)
      else ok to_start
  ok (after, (to_start, users))

unfoldable pub create_and_choose :
    Settings
    → (exclude_god_node : Bool) → (count : ℤ) → (command : Bytes) → Option ℤ
    → Users
    → Result (Users × (List ProcessUser × List ProcessUser))
unfolding create_if chosen
create_and_choose s exclude_god_node count command shared state =
    let count' = if exclude_god_node then count +ℤ negsuc 0 else count in
    create_if s count' command shared state >>= chosen exclude_god_node (length state.users) count'

-- The users of `startNewNodesAndSendInvites`. The god user counts as one of the first users, and is not
-- started again.
unfoldable pub new_users :
    Settings
    → (god_mode : Bool) → (count : ℤ) → (command : Bytes) → Option ℤ
    → Users
    → Result (Users × (List ProcessUser × List ProcessUser))
unfolding create_and_choose
new_users s god_mode count command shared state =
    create_and_choose s (god_mode && length state.users == 1) count command shared state
