-- ===== src/Process/Invites.antt =====
-- process/process.go: the invites of new users, and the waits until they have a state.
pub mod Delegatees
mod Tests
use idena_test_go.Prelude.{
  ℕ, zero, suc, ◌+◌, ◌-◌, ◌/◌, Bool, true, false, ◌||◌, List, [], ◌∷◌, ◌++◌, Option, none, some,
  Bytes, String, map, ltb, if◌then◌else◌,
}
use idena_test_go.Prelude.Int.{ℤ, pos}
use idena_test_go.Prelude.Result.{
  Result, Error, ok, err, panic, exited, endless_loop, index_out_of_range, client_error, index,
  ◌>>=◌,
}
use text.Mathlib.Text.{◌==◌ as ◌=s=◌}

-- A user that is invited, with whether it points to the delegatee of the loop of `sendInvites`.
pub record Invitee : Type 0 where
  pub address : Bytes
  pub pub_key : Bytes
  pub has_delegatee : Bool

abbrev pub recipient_of : (validation_only : Bool) → Invitee → Bytes
recipient_of validation_only u = if validation_only then u.pub_key else u.address

-- `sendInvites` of the god bot: the sender's index and the recipient of each invite, where `send` is whether
-- the node accepts it.
unfoldable pub send_god_invites :
    (validation_only : Bool)
    → (send : Bytes → Bool) → (users : List Invitee) → (inviter : ℤ) → List Invitee
    → Result (List Bytes)
send_god_invites validation_only send users inviter [] = ok []
send_god_invites validation_only send users inviter (u ∷ invitees) =
    index users inviter >>= λ sender.
    let rest = send_god_invites validation_only send users inviter invitees in
    let recipient = recipient_of validation_only u in
    if send recipient then rest >>= (λ sent. ok (recipient ∷ sent)) else panic (exited client_error)

-- The users of the process, and the variable `delegatee` of the loop, which all rounds share, since the
-- module asks for Go 1.17.
pub record Delegated : Type 0 where
  pub users : List Invitee
  pub delegatee : Bytes

abbrev pub point_at : ℕ → List Invitee → Result (List Invitee)
point_at i [] = panic index_out_of_range
point_at zero (u ∷ users) = ok (record u { has_delegatee = true } ∷ users)
point_at (suc i) (u ∷ users) = point_at i users >>= (λ rest. ok (u ∷ rest))

-- The loop over the delegatees from the `idx`-th on: each of these users of the process, and not of those
-- that are invited, points to the variable.
unfoldable pub set_delegatees : (idx : ℕ) → List Bytes → Delegated → Result Delegated
set_delegatees idx [] state = ok state
set_delegatees idx (d ∷ delegatees) state =
    point_at idx state.users
    >>= (λ users. set_delegatees (suc idx) delegatees (record { users = users; delegatee = d }))

-- `sendInvites` of another bot, by the answer of the god bot to the recipients, or none for its error.
unfoldable pub request_invites :
    (validation_only : Bool)
    → (create : List Bytes → Option (List Bytes)) → (users invitees : List Invitee)
    → Result Delegated
unfolding set_delegatees
request_invites validation_only create users invitees =
    elim (create (map (recipient_of validation_only) invitees)) [
      | none ↦ panic (exited client_error)
      | some delegatees ↦ set_delegatees 0 delegatees (record { users = users; delegatee = [] })
    ]

-- `GetMultiBotDelegatee`
abbrev pub delegatee_of : Delegated → Invitee → Option Bytes
delegatee_of state u = if u.has_delegatee then some state.delegatee else none

-- The minutes of `waitForNodesState`, of an offset that is not negative.
unfoldable pub timeout_min : ℕ → ℕ
timeout_min offset =
    let half = (offset + 1) / 2 in if ltb 8 (offset - half) then offset - 8 else half

-- `in`
unfoldable pub is_in_list : String → List String → Bool
is_in_list value [] = false
is_in_list value (elem ∷ list) = elem =s= value || is_in_list value list

-- The loop of `waitForNodeState` from the `at`-th request on, on fuel: the state in which it ends. The node
-- gives the state of the identity, or none for an error.
unfoldable pub wait_for_node_state :
    (state_at : ℕ → Option String) → (states : List String) → (fuel at : ℕ) → Result String
unfolding is_in_list
wait_for_node_state state_at states zero at = panic endless_loop
wait_for_node_state state_at states (suc fuel) at =
    let rest = wait_for_node_state state_at states fuel (suc at) in
    elim (state_at at) [
      | none ↦ panic (exited client_error)
      | some state ↦ if is_in_list state states then ok state else rest
    ]

-- What new users with an inviter go through in `createEpochNewUsers` and `createEpochInviterNewUsers`.
pub data Onboarding : Type 0 where
  waits_for : String → Onboarding
  pauses activates : Onboarding

unfoldable pub onboarding :
    (validation_only fast_newbie god_mode : Bool) → (test_index : ℕ) → List Onboarding
onboarding validation_only fast_newbie god_mode test_index =
    if validation_only
    then waits_for "Newbie" ∷ []
    else waits_for "Invite"
      ∷ (elim test_index [ zero ↦ if god_mode then [] else pauses ∷ [] | suc n ↦ [] ]
          ++ activates ∷ (if fast_newbie then waits_for "Newbie" else waits_for "Candidate") ∷ [])
