-- ===== src/Process/Epoch/Calls.antt =====
-- process/verification.go: the calls of a user in an epoch, and which of them are left out.
use idena_test_go.Prelude.{
  Bool, false, ◌&&◌, ◌||◌, not, List, [], ◌∷◌, ◌++◌, map, Option, none, some, Bytes, if◌then◌else◌,
}
use idena_test_go.Prelude.Int.{ℤ}
use idena_test_go.Scenario.Model.{NodeSwitch}
use idena_test_go.Process.Epoch.{active_after}

-- The calls of `testUser`.
pub data Call : Type 0 where
  -- `initTest`, and the transactions and the update of the node that run beside
  starts_test : Call
  switches_node gets_epoch switches_online_state submits_flips provides_delayed_flip_key : Call
  delegates_to : Bytes → Call
  -- `createEpochInviterNewUsers` and `testUsers`, with the count
  creates_new_users : ℤ → Call
  waits_for_flip_lottery passes_verification collects_state waits_for_session_finish : Call

-- What `testUser` looks at: whether the user shares a node and is active at the start, what the scenario has
-- for it, and the delegatee that it has from the god bot.
pub record Turn : Type 0 where
  pub shares : Bool
  pub was_active : Bool
  pub switches : List NodeSwitch
  pub skip_epoch : Bool
  pub validation_only : Bool
  pub multi_bot_delegatee : Option Bytes
  pub new_users : List ℤ

-- Behind the flips.
abbrev pub session_calls : Turn → List Call
session_calls t =
    submits_flips
    ∷ provides_delayed_flip_key
    ∷ (map creates_new_users t.new_users
        ++ waits_for_flip_lottery ∷ passes_verification ∷ collects_state ∷ waits_for_session_finish
          ∷ [])

abbrev pub delegate_calls : Option Bytes → List Call
delegate_calls none = []
delegate_calls (some delegatee) = delegates_to delegatee ∷ []

abbrev pub online_calls : Turn → List Call
online_calls t =
    if t.validation_only then [] else switches_online_state ∷ delegate_calls t.multi_bot_delegatee

-- `switchNodeIfNeeded` is called where the user was not active before, and later where it was.
abbrev pub switch_call : Bool → List Call
switch_call b = if b then switches_node ∷ [] else []

-- `IsActive` in the two tests of it: before the user gets the epoch, and before it submits flips.
unfoldable pub is_active_first : Turn → Bool
unfolding active_after
is_active_first t = t.was_active || active_after t.shares false t.switches

unfoldable pub is_active_then : Turn → Bool
unfolding active_after
is_active_then t = active_after t.shares t.was_active t.switches

abbrev pub calls_if : Bool → List Call → List Call
calls_if b calls = if b then calls else []

-- `testUser`
unfoldable pub test_user : Turn → List Call
unfolding is_active_first is_active_then
test_user t =
    starts_test
    ∷ (switch_call (not t.was_active)
        ++ calls_if (not t.skip_epoch && is_active_first t) (
            gets_epoch
            ∷ (online_calls t
                ++ (switch_call t.was_active ++ calls_if (is_active_then t) (session_calls t)))))
