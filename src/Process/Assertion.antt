-- ===== src/Process/Assertion.antt =====
-- process/assertion.go: after a test, the states of the nodes are compared with the scenario.
mod Tests
pub mod Holds
pub mod Passes
pub mod Stats
use idena_test_go.Prelude.{
  ℕ, suc, ◌-◌, ◌%◌, Bool, true, false, ◌&&◌, ◌||◌, not, List, [], ◌∷◌, ◌++◌, Option, none, some,
  String, length, if◌then◌else◌, ◌==◌,
}
use idena_test_go.Prelude.Int.{ℤ, pos, negsuc, leb_ℤ, ◌==ℤ◌}
use idena_test_go.Prelude.Dict.{Dict, lookup}
use idena_test_go.Prelude.Result.{
  Result, ok, panic, exited, nil_pointer, assertion_failed, index, ◌>>=◌,
}
use idena_test_go.Scenario.Model.{StateAssertion, NodeAssertion, Assertion, Ceremony}
use text.Mathlib.Text.{◌==◌ as ◌=s=◌}

-- What the assertions read of idena-go's `api.Identity`; `invites` is a `uint8`.
pub record Identity : Type 0 where
  pub state : String
  pub invites : ℕ
  pub online : Bool

pub record UserEpochState : Type 0 where
  pub made_flips : ℤ
  pub required_flips : ℤ
  pub available_flips : ℤ

-- An error that `assertionError` appends, with the expected value before the actual one.
pub data AssertionError : Type 0 where
  wrong_count : (state : String) (expected actual : ℤ) → AssertionError
  absent_user : (user : ℤ) → AssertionError
  wrong_state : (user : ℤ) (expected actual : String) → AssertionError
  wrong_made_flips wrong_required_flips : (user expected actual : ℤ) → AssertionError
  wrong_invites : (user expected : ℤ) (actual : ℕ) → AssertionError
  wrong_online : (user : ℤ) (expected actual : Bool) → AssertionError

abbrev pub error_unless : Bool → AssertionError → List AssertionError
error_unless true e = []
error_unless false e = e ∷ []

-- `getNodeStates`: the identities of the active users, in the order of their turns at the mutex. The map
-- is a function that is 0 where it has no key; the number of users is far below 2^63.
abbrev pub bump : String → (String → ℕ) → String → ℕ
bump state states s = if state =s= s then suc (states s) else states s

unfoldable pub add_states : List Identity → (String → ℕ) → String → ℕ
add_states [] states = states
add_states (identity ∷ identities) states = add_states identities (bump identity.state states)

unfoldable pub get_node_states : List Identity → String → ℕ
unfolding add_states
get_node_states identities = add_states identities (λ s. 0)

-- `assertNodeStates`
unfoldable pub assert_node_states : (String → ℕ) → List StateAssertion → List AssertionError
assert_node_states node_states [] = []
assert_node_states node_states (s ∷ states) =
    error_unless (pos (node_states s.state) ==ℤ s.count)
      (wrong_count s.state s.count (pos (node_states s.state)))
    ++ assert_node_states node_states states

-- `uint8(z)`
abbrev pub to_uint8 : ℤ → ℕ
to_uint8 (pos n) = n % 256
to_uint8 (negsuc n) = 255 - n % 256

abbrev pub same_bool : Bool → Bool → Bool
same_bool true b = b
same_bool false b = not b

-- An expected number of flips: the pointer to the user's state is followed before the exemption is
-- looked at.
abbrev pub flips_errors :
    Option ℤ
    → (exempt : Bool) → Option UserEpochState
    → (UserEpochState → ℤ)
    → (ℤ → ℤ → AssertionError)
    → Result (List AssertionError)
flips_errors none exempt ues flips e = ok []
flips_errors (some m) exempt none flips e = panic nil_pointer
flips_errors (some m) exempt (some ues) flips e =
    ok (error_unless ((flips ues ==ℤ m) || exempt) (e m (flips ues)))

abbrev pub state_errors : ℤ → Option String → String → List AssertionError
state_errors user none state = []
state_errors user (some s) state = error_unless (state =s= s) (wrong_state user s state)

abbrev pub invites_errors : ℤ → Option ℤ → ℕ → List AssertionError
invites_errors user none invites = []
invites_errors user (some n) invites =
    error_unless (invites == to_uint8 n) (wrong_invites user n invites)

abbrev pub online_errors : ℤ → Option Bool → Bool → List AssertionError
online_errors user none online = []
online_errors user (some b) online = error_unless (same_bool online b) (wrong_online user b online)

-- What the assertions read of the process: the index of each of its users, that of the god user in god
-- mode, and the test.
pub record Users : Type 0 where
  pub users : List ℤ
  pub god_user : Option ℤ
  pub test_index : ℕ

abbrev pub is_god : Option ℤ → ℤ → Bool
is_god none user = false
is_god (some god) user = user ==ℤ god

-- `process.godMode && u.GetIndex() == process.godUser.GetIndex() && process.getCurrentTestIndex() == 0`
abbrev pub is_exempt : Users → ℤ → Bool
is_exempt p user = is_god p.god_user user && (p.test_index == 0)

-- `assertNode` from the identity of the user on, if it is present.
unfoldable pub assert_identity :
    Users
    → ℤ
    → NodeAssertion
    → Option Identity
    → Option UserEpochState
    → Result (List AssertionError)
assert_identity p user node none ues = ok []
assert_identity p user node (some identity) ues = do
  made ←
      flips_errors node.made_flips (is_exempt p user) ues (λ s. s.made_flips)
        (wrong_made_flips user)
  required ←
      flips_errors node.required_flips false ues (λ s. s.required_flips) (wrong_required_flips user)
  ok (
      state_errors user node.state identity.state
      ++ (made
          ++ (required
              ++ (invites_errors user node.available_invites identity.invites
                  ++ online_errors user node.online identity.online))))

-- `assertNode`, for an assertion that is not nil.
unfoldable pub assert_node :
    Users → ℤ → NodeAssertion → Dict Identity → Option UserEpochState → Result (List AssertionError)
unfolding lookup assert_identity
assert_node p user node identities ues = assert_identity p user node (lookup user identities) ues

-- `assertNodes`, in one of the orders of Go's range over a map.
unfoldable pub assert_nodes :
    Users → Dict NodeAssertion → Dict Identity → Dict UserEpochState → Result (List AssertionError)
unfolding assert_node lookup
assert_nodes p [] identities states = ok []
assert_nodes p ((k, node) ∷ nodes) identities states =
    let rest = assert_nodes p nodes identities states in
    if leb_ℤ (pos (length p.users)) k then rest >>= (λ errors. ok (absent_user k ∷ errors)) else do
      user ← index p.users k
      first ← assert_node p user node identities (lookup k states)
      errors ← rest
      ok (first ++ errors)

-- The assertions of `assert`, where the identities are those of the active users: it goes on, or the process
-- exits.
unfoldable pub finish : List AssertionError → Result (Unit {0})
finish [] = ok tt
finish (e ∷ errors) = panic (exited assertion_failed)

unfoldable pub assert_assertion :
    Users
    → Assertion
    → (active : List Identity) (identities : Dict Identity) → Dict UserEpochState
    → Result (Unit {0})
unfolding assert_nodes assert_node_states get_node_states finish
assert_assertion p assertion active identities states = do
  errors ← assert_nodes p assertion.nodes identities states
  finish (assert_node_states (get_node_states active) assertion.states ++ errors)

-- `logStats`, from the `i`-th user on: the state of a user in the epoch is followed if the user is active, also
-- where there is none.
unfoldable pub log_user : Option Identity → Option UserEpochState → Result (Unit {0})
log_user none ues = ok tt
log_user (some identity) none = panic nil_pointer
log_user (some identity) (some ues) = ok tt

unfoldable pub log_stats :
    (users : List ℤ)
    → (i : ℕ) → (identities : Dict Identity) → Dict UserEpochState
    → Result (Unit {0})
unfolding log_user lookup
log_stats [] i identities states = ok tt
log_stats (user ∷ users) i identities states =
    log_user (lookup (pos i) identities) (lookup (pos i) states)
    >>= (λ logged. log_stats users (suc i) identities states)

-- `assert` behind `logStats`
unfoldable pub assert_ceremony :
    Users
    → Option Ceremony
    → (active : List Identity) (identities : Dict Identity) → Dict UserEpochState
    → Result (Unit {0})
unfolding assert_assertion
assert_ceremony p none active identities states = ok tt
assert_ceremony p (some ceremony) active identities states = elim ceremony.assertion [
  | none ↦ ok tt
  | some assertion ↦ assert_assertion p assertion active identities states
]

-- `assert`, whose statistics come first.
unfoldable pub assert :
    Users
    → Option Ceremony
    → (active : List Identity) (identities : Dict Identity) → Dict UserEpochState
    → Result (Unit {0})
unfolding log_stats assert_ceremony
assert p ceremony active identities states =
    log_stats p.users 0 identities states
    >>= (λ logged. assert_ceremony p ceremony active identities states)
