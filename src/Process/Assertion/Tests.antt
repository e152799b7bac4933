-- ===== src/Process/Assertion/Tests.antt =====
-- Runs of the assertions.
use idena_test_go.Prelude.{◌≡◌, ◌↔◌, refl, true, [], ◌∷◌, none, some}
use idena_test_go.Prelude.Int.{pos}
use idena_test_go.Prelude.Dict.{Dict}
use idena_test_go.Prelude.Result.{ok, panic, exited, nil_pointer, assertion_failed}
use idena_test_go.Scenario.Model.{NodeAssertion, Assertion, Ceremony}
use idena_test_go.Process.Assertion.{
  Identity, UserEpochState, Users, absent_user, assert_nodes, assert_assertion, assert,
}
use idena_test_go.Process.Assertion.Stats.{AreLogged, CeremonyHolds, assert-passes}

abbrev users : Users
users = record { users = pos 0 ∷ pos 1 ∷ []; god_user = some (pos 0); test_index = 0 }

abbrev newbie : Identity
newbie = record { state = "Newbie"; invites = 0; online = true }

abbrev identities : Dict Identity
identities = (pos 0, newbie) ∷ (pos 1, newbie) ∷ []

abbrev made : UserEpochState
made = record { made_flips = pos 3; required_flips = pos 3; available_flips = pos 5 }

abbrev states : Dict UserEpochState
states = (pos 0, made) ∷ []

-- 256 invites are expected, and there are none.
abbrev node : NodeAssertion
node = record {
  made_flips = some (pos 4);
  required_flips = some (pos 3);
  available_invites = some (pos 256);
  state = some "Newbie";
  online = some true;
}

abbrev assertion : Assertion
assertion = record {
  states =
      record { state = "Newbie"; count = pos 2 } ∷ record { state = "Human"; count = pos 0 } ∷ [];
  nodes = (pos 0, node) ∷ [];
}

abbrev ceremony : Ceremony
ceremony = record { user_ceremonies = []; assertion = some assertion }

abbrev all_states : Dict UserEpochState
all_states = (pos 1, made) ∷ states

test_passes : assert users (some ceremony) (newbie ∷ newbie ∷ []) identities all_states ≡ ok tt
unfolding assert
test_passes = refl

-- Without the state of an active user the statistics fail, also where nothing is asserted.
test_stats : assert users none (newbie ∷ newbie ∷ []) identities states ≡ panic nil_pointer
unfolding assert
test_stats = refl

-- A user without a state of its epoch, and a user that the process does not have.
test_missing_state : assert_nodes users ((pos 1, node) ∷ []) identities states ≡ panic nil_pointer
unfolding assert_nodes
test_missing_state = refl

test_absent_user :
    assert_nodes users ((pos 2, node) ∷ []) identities states ≡ ok (absent_user (pos 2) ∷ [])
unfolding assert_nodes
test_absent_user = refl

test_fails :
    assert_assertion users assertion (newbie ∷ []) identities states
    ≡ panic (exited assertion_failed)
unfolding assert_assertion
test_fails = refl

assert-passes_example :
    (assert users (some ceremony) (newbie ∷ newbie ∷ []) identities all_states ≡ ok tt) ↔ (
      AreLogged users.users 0 identities all_states
      × CeremonyHolds users (some ceremony) (newbie ∷ newbie ∷ []) identities all_states)
assert-passes_example =
    assert-passes users (some ceremony) (newbie ∷ newbie ∷ []) identities all_states
