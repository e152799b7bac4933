-- ===== src/Process/Assertion/Stats.antt =====
-- process/assertion.go: when the process goes on behind a test.
use idena_test_go.Prelude.{ℕ, suc, ◌≡◌, ◌⊎◌, inl, inr, ◌↔◌, refl, List, [], ◌∷◌, Option, none, some}
use idena_test_go.Prelude.Int.{ℤ, pos}
use idena_test_go.Prelude.Dict.{Dict, lookup}
use idena_test_go.Prelude.Result.{Result, ok, err, panic, ◌>>=◌}
use idena_test_go.Scenario.Model.{Ceremony, Assertion}
use idena_test_go.Process.Assertion.{
  Identity, UserEpochState, Users, log_user, log_stats, assert_assertion, assert_ceremony, assert,
}
use idena_test_go.Process.Assertion.Holds.{StatesHold}
use idena_test_go.Process.Assertion.Passes.{NodesHold, assert_assertion-holds}

-- A user is stopped, or it has a state of the epoch.
abbrev pub IsLogged : Option Identity → Option UserEpochState → Type 0
IsLogged identity ues = (identity ≡ none) ⊎ ((s : UserEpochState) × (ues ≡ some s))

-- So it is with all users from the `i`-th on.
abbrev pub AreLogged :
    (users : List ℤ) → (i : ℕ) → (identities : Dict Identity) → Dict UserEpochState → Type 0
AreLogged [] i identities states = Unit
AreLogged (user ∷ users) i identities states =
    IsLogged (lookup (pos i) identities) (lookup (pos i) states)
    × AreLogged users (suc i) identities states

-- The assertions of a ceremony hold, if it has some.
abbrev pub AssertionHolds :
    Users
    → Option Assertion
    → (active : List Identity) (identities : Dict Identity) → Dict UserEpochState
    → Type 0
AssertionHolds p none active identities states = Unit
AssertionHolds p (some assertion) active identities states =
    StatesHold active assertion.states × NodesHold p assertion.nodes identities states

abbrev pub CeremonyHolds :
    Users
    → Option Ceremony
    → (active : List Identity) (identities : Dict Identity) → Dict UserEpochState
    → Type 0
CeremonyHolds p none active identities states = Unit
CeremonyHolds p (some ceremony) active identities states =
    AssertionHolds p ceremony.assertion active identities states

-- Two calls one after the other go through if both do.
both_of :
    {P Q : Type 0} (first second : Result (Unit {0}))
    → (first ≡ ok tt) ↔ P
    → (second ≡ ok tt) ↔ Q
    → ((first >>= (λ done. second)) ≡ ok tt) ↔ (P × Q)
both_of (ok done) second p q = (λ h. (p.0 refl, q.0 h), λ (a, b). q.1 b)
both_of (err e) second p q = (λ h. cc, λ (a, b). let bad = p.1 a in cc)
both_of (panic x) second p q = (λ h. cc, λ (a, b). let bad = p.1 a in cc)

log_user_lem :
    (identity : Option Identity) (ues : Option UserEpochState)
    → (log_user identity ues ≡ ok tt) ↔ IsLogged identity ues
unfolding log_user
log_user_lem none ues = (λ h. inl refl, λ h. refl)
log_user_lem (some identity) none =
    (λ h. cc, λ h. elim h [ inl stopped ↦ cc | inr (s, found) ↦ cc ])
log_user_lem (some identity) (some ues) = (λ h. inr (ues, refl), λ h. refl)

log_stats_lem :
    (users : List ℤ) (i : ℕ) (identities : Dict Identity) (states : Dict UserEpochState)
    → (log_stats users i identities states ≡ ok tt) ↔ AreLogged users i identities states
unfolding log_stats
log_stats_lem [] i identities states = (λ h. tt, λ h. refl)
log_stats_lem (user ∷ users) i identities states =
    both_of (log_user (lookup (pos i) identities) (lookup (pos i) states))
      (log_stats users (suc i) identities states)
      (log_user_lem (lookup (pos i) identities) (lookup (pos i) states))
      (log_stats_lem users (suc i) identities states)

assert_ceremony_lem :
    (p : Users) (ceremony : Option Ceremony) (active : List Identity) (identities : Dict Identity)
    (states : Dict UserEpochState)
    → (assert_ceremony p ceremony active identities states ≡ ok tt)
      ↔ CeremonyHolds p ceremony active identities states
unfolding assert_ceremony
assert_ceremony_lem p none active identities states = (λ h. tt, λ h. refl)
assert_ceremony_lem p (some ceremony) active identities states =
    elim ceremony.assertion
      as (λ assertion.
        (elim assertion as (λ _. Result (Unit {0})) [
          | none ↦ ok tt
          | some a ↦ assert_assertion p a active identities states
        ]
          ≡ ok tt)
        ↔ AssertionHolds p assertion active identities states) [
          | none ↦ (λ h. tt, λ h. refl)
          | some a ↦ assert_assertion-holds p a active identities states
        ]

-- Behind a test the process goes on just where two things hold. Each user of the process is stopped or has a
-- state of the epoch, since the statistics follow it. And if the scenario has assertions for the test,
-- each one on a state has the number of active identities with that state, and each one on a user is on one
-- of the process and holds for it, unless it is stopped. Of an expected number of invites only the last
-- eight bits count, and an expected number of made flips does not bind the god user in the first test. In
-- every other case the process exits or panics.
pub assert-passes :
    (p : Users) (ceremony : Option Ceremony) (active : List Identity) (identities : Dict Identity)
    (states : Dict UserEpochState)
    → (assert p ceremony active identities states ≡ ok tt)
      ↔ (AreLogged p.users 0 identities states × CeremonyHolds p ceremony active identities states)
unfolding assert
assert-passes p ceremony active identities states =
    both_of (log_stats p.users 0 identities states)
      (assert_ceremony p ceremony active identities states)
      (log_stats_lem p.users 0 identities states)
      (assert_ceremony_lem p ceremony active identities states)
