-- ===== src/Process/Epoch.antt =====
-- process/verification.go and process/process.go: what a user does in an epoch around its two sessions.
pub mod Calls
pub mod Steps
pub mod Done
mod Tests
use idena_test_go.Prelude.{
  ℕ, zero, suc, ◌+◌, ◌-◌, ◌*◌, Bool, true, false, ◌&&◌, ◌||◌, not, List, [], ◌∷◌, ◌++◌, Option,
  none, some, Bytes, String, length, leb, ◌==◌, if◌then◌else◌,
}
use idena_test_go.Prelude.Int.{ℤ, pos, pos_part, negsuc, ◌+ℤ◌, ◌==ℤ◌}
use idena_test_go.Prelude.Dict.{Dict, lookup}
use idena_test_go.Prelude.Result.{
  Result, ok, err, panic, index_out_of_range, endless_loop, exited, sessions_timeout, ◌>>=◌,
}
use idena_test_go.Scenario.Incoming.{Ref}
use idena_test_go.Scenario.Model.{NewUsers, NodeSwitch, NodeUpdate}
use idena_test_go.Process.Online.{is_in}
use idena_test_go.Process.Users.Chosen.{slice}
use text.Mathlib.Text.{◌==◌ as ◌=s=◌}

-- The loop of `waitForPeriod` from the `at`-th request on, on fuel: the number of requests. The period is
-- empty where the node gives an error, which the code drops.
unfoldable pub wait_for_period :
    (period_at : ℕ → String) → (period : String) → (fuel at : ℕ) → Result ℕ
wait_for_period period_at period zero at = panic endless_loop
wait_for_period period_at period (suc fuel) at =
    let rest = wait_for_period period_at period fuel (suc at) in
    if period_at at =s= period then ok (suc at) else rest

-- The loop of `waitForGodBotNewEpoch`, by the epoch that the god bot gives, or none for an error.
unfoldable pub god_epoch_loop : (epoch_at : ℕ → Option ℤ) → (epoch : ℤ) → (fuel at : ℕ) → Result ℕ
god_epoch_loop epoch_at epoch zero at = panic endless_loop
god_epoch_loop epoch_at epoch (suc fuel) at =
    let rest = god_epoch_loop epoch_at epoch fuel (suc at) in
    elim (epoch_at at) [ none ↦ rest | some e ↦ if e ==ℤ epoch then ok (suc at) else rest ]

-- `waitForGodBotNewEpoch`: the number of requests, none of the god bot itself.
unfoldable pub wait_for_god_bot_new_epoch :
    (god_mode : Bool) → (epoch_at : ℕ → Option ℤ) → (epoch : ℤ) → (fuel : ℕ) → Result ℕ
unfolding god_epoch_loop
wait_for_god_bot_new_epoch god_mode epoch_at epoch fuel =
    if god_mode then ok 0 else god_epoch_loop epoch_at epoch fuel 0

-- `getTestTimeout`, in seconds, by the seconds until the validation and those of its three parts.
unfoldable pub get_test_timeout :
    (until_validation : ℤ) → (lottery short long extra_minutes : ℕ) → ℤ
get_test_timeout until_validation lottery short long extra_minutes =
    until_validation +ℤ pos (lottery + short + long + 60 * extra_minutes)

-- The switches of a user's node in an epoch, none where the scenario has none.
abbrev pub list_or_none : Option (List NodeSwitch) → List NodeSwitch
list_or_none none = []
list_or_none (some switches) = switches

unfoldable pub node_switches :
    Dict (Dict (List NodeSwitch)) → (test_index user : ℤ) → List NodeSwitch
unfolding lookup
node_switches epochs test_index user = elim (lookup test_index epochs) [
  | none ↦ []
  | some users ↦ list_or_none (lookup user users)
]

-- `IsActive` behind `switchNodeIfNeeded`, for a user with its own node whose starts and stops succeed, since
-- the process exits otherwise. A user of a shared node is active always.
unfoldable pub active_after : (shares : Bool) → Bool → List NodeSwitch → Bool
active_after shares active [] = shares || active
active_after shares active (switch ∷ switches) = active_after shares switch.is_start switches

-- `provideDelayedFlipKeyIfNeeded` does something.
unfoldable pub provides_delayed_flip_key : Dict (List ℤ) → (test_index user : ℤ) → Bool
unfolding lookup
provides_delayed_flip_key epochs test_index user = is_in (lookup test_index epochs) user

-- The command that `updateNode` starts a node with, where it updates one: the scenario has an update for the
-- user in the epoch, and the epoch is not over behind its delay.
unfoldable pub update_node :
    Dict (Dict NodeUpdate) → (epoch user epoch_after_delay : ℤ) → Option String
unfolding lookup
update_node epochs epoch user epoch_after_delay = elim (lookup epoch epochs) [
  | none ↦ none
  | some users ↦ elim (lookup user users) [
    | none ↦ none
    | some update ↦ if epoch ==ℤ epoch_after_delay then some update.command else none
  ]
]

-- Whether a user creates new users behind its flips: the inviter, or the first user where there is none.
abbrev pub is_creator : (user : ℤ) → Option Ref → Bool
is_creator user none = user ==ℤ pos 0
is_creator user (some inviter) = inviter.target ==ℤ user

abbrev pub creates_them : {F : Type 0} → (user : ℤ) → NewUsers F → Bool
creates_them user n = is_creator user n.inviter

abbrev pub created_by : {F : Type 0} → (user : ℤ) → List (NewUsers F) → List (NewUsers F)
created_by user [] = []
created_by user (n ∷ new_users) =
    let rest = created_by user new_users in if creates_them user n then n ∷ rest else rest

-- `process.users[len(process.users)-count:]`, the users that `testUser` tests behind their creation.
unfoldable pub users_to_test : {A : Type 0} → (users : List A) → (count : ℕ) → Result (List A)
unfolding slice
users_to_test users count =
    if leb count (length users)
    then slice users (length users - count) (pos (length users))
    else panic index_out_of_range

-- The new users of `test`, and what it adds to its wait group: they, and the users that are there. The
-- counts are those of an accepted scenario, which are positive.
unfoldable pub new_users_count : {F : Type 0} → List (NewUsers F) → ℕ
new_users_count [] = 0
new_users_count (n ∷ new_users) = pos_part n.count + new_users_count new_users

unfoldable pub added : {F : Type 0} → (users : ℕ) → List (NewUsers F) → ℕ
unfolding new_users_count
added users new_users = users + new_users_count new_users

-- The calls of `Done` for a user, and for the new users that it creates if it takes part in the epoch. The new
-- users stand behind the others, and create none themselves where the creators are among those.
unfoldable pub done_by : {F : Type 0} → (takes_part : Bool) → (user : ℕ) → List (NewUsers F) → ℕ
unfolding new_users_count
done_by takes_part user new_users =
    if takes_part then suc (new_users_count (created_by (pos user) new_users)) else 1

-- The calls of all users, `n` users from the `i`-th on.
unfoldable pub done_by_all :
    {F : Type 0} → (takes_part : ℕ → Bool) → (n i : ℕ) → List (NewUsers F) → ℕ
unfolding done_by
done_by_all takes_part zero i new_users = 0
done_by_all takes_part (suc n) i new_users =
    done_by (takes_part i) i new_users + done_by_all takes_part n (suc i) new_users

-- The wait of `test` for its wait group, where each user is done in time with what it does: the group is done
-- when it has got as many calls of `Done` as were added, and otherwise the timeout ends the process.
unfoldable pub wait_for_sessions :
    {F : Type 0} → (takes_part : ℕ → Bool) → (users : ℕ) → List (NewUsers F) → Result (Unit {0})
unfolding done_by_all added
wait_for_sessions takes_part users new_users =
    if done_by_all takes_part users 0 new_users == added users new_users
    then ok tt
    else panic (exited sessions_timeout)
