-- ===== src/Process/Assertion/Passes.antt =====
-- process/assertion.go: when the assertions of a test pass.
use idena_test_go.Prelude.{
  zero, suc, ◌≡◌, ◌↔◌, inl, inr, refl, sym, ap, false, List, [], ◌∷◌, ◌++◌, Option, none, some,
  length, All, arith, Bool-cases,
}
use mathlib.Core.Path.{subst}
use idena_test_go.Prelude.Int.{ℤ, pos, negsuc, leb_ℤ}
use idena_test_go.Prelude.Dict.{Dict, lookup}
use idena_test_go.Prelude.Result.{Result, ok, err, panic, index, ◌>>=◌}
use idena_test_go.Scenario.Model.{NodeAssertion, Assertion}
use idena_test_go.Process.Assertion.{
  Identity, UserEpochState, AssertionError, absent_user, wrong_made_flips, wrong_required_flips,
  get_node_states, assert_node_states, flips_errors, state_errors, invites_errors, online_errors,
  Users, is_exempt, assert_identity, assert_node, assert_nodes, finish, assert_assertion,
}
use idena_test_go.Process.Assertion.Holds.{
  append_of, bind_of, ok_injective, StatesHold, StateHolds, InvitesHold, OnlineHolds, FlipsHold,
  assert_node_states-nil, state_errors-nil, invites_errors-nil, online_errors-nil, flips_errors-nil,
}

-- The assertion on a user holds: always for a user that is stopped, and otherwise if each part of it does.
abbrev pub NodeHolds : Users → ℤ → NodeAssertion → Option Identity → Option UserEpochState → Type 0
NodeHolds p user node none ues = Unit
NodeHolds p user node (some identity) ues =
    StateHolds node.state identity.state
    × FlipsHold node.made_flips (is_exempt p user) ues (λ s. s.made_flips)
    × FlipsHold node.required_flips false ues (λ s. s.required_flips)
    × (InvitesHold node.available_invites identity.invites
        × OnlineHolds node.online identity.online)

node_of :
    {P Q R S : Type 0} (before after : List AssertionError)
    (made required : Result (List AssertionError))
    → (before ≡ []) ↔ P
    → (made ≡ ok []) ↔ Q
    → (required ≡ ok []) ↔ R
    → (after ≡ []) ↔ S
    → (made >>= (λ xs. required >>= (λ ys. ok (before ++ (xs ++ (ys ++ after))))) ≡ ok [])
      ↔ (P × Q × R × S)
node_of before after (ok xs) (ok ys) p q r s =
    let (to, from) = append_of before (xs ++ (ys ++ after)) p (
      append_of xs (ys ++ after) (λ h. q.0 (ap ok h), λ h. ok_injective (q.1 h))
        (append_of ys after (λ h. r.0 (ap ok h), λ h. ok_injective (r.1 h)) s)) in
    (
      λ h. let (a, (b, (c, d))) = to (ok_injective h) in (a, b, c, d),
      λ h. ap ok (from (h.0, (h.1, (h.2, h.3)))),
    )
node_of before after (ok xs) (err e) p q r s =
    (λ h. cc, λ h. let bad : err e ≡ ok [] = r.1 h.2 in cc)
node_of before after (ok xs) (panic e) p q r s =
    (λ h. cc, λ h. let bad : panic e ≡ ok [] = r.1 h.2 in cc)
node_of before after (err e) required p q r s =
    (λ h. cc, λ h. let bad : err e ≡ ok [] = q.1 h.1 in cc)
node_of before after (panic e) required p q r s =
    (λ h. cc, λ h. let bad : panic e ≡ ok [] = q.1 h.1 in cc)

assert_identity-ok :
    (p : Users) (user : ℤ) (node : NodeAssertion) (identity : Option Identity)
    (ues : Option UserEpochState)
    → (assert_identity p user node identity ues ≡ ok []) ↔ NodeHolds p user node identity ues
unfolding assert_identity
assert_identity-ok p user node none ues = (λ h. tt, λ h. refl)
assert_identity-ok p user node (some identity) ues =
    node_of (state_errors user node.state identity.state)
      (invites_errors user node.available_invites identity.invites
        ++ online_errors user node.online identity.online)
      (flips_errors node.made_flips (is_exempt p user) ues (λ s. s.made_flips)
        (wrong_made_flips user))
      (flips_errors node.required_flips false ues (λ s. s.required_flips)
        (wrong_required_flips user))
      (state_errors-nil user node.state identity.state)
      (flips_errors-nil node.made_flips (is_exempt p user) ues (λ s. s.made_flips)
        (wrong_made_flips user))
      (flips_errors-nil node.required_flips false ues (λ s. s.required_flips)
        (wrong_required_flips user))
      (append_of (invites_errors user node.available_invites identity.invites)
        (online_errors user node.online identity.online)
        (invites_errors-nil user node.available_invites identity.invites)
        (online_errors-nil user node.online identity.online))

-- Each assertion is on a user of the process, and holds.
abbrev pub UserHolds : Users → Dict Identity → Dict UserEpochState → ℤ × NodeAssertion → Type 0
UserHolds p identities states (k, node) =
    (user : ℤ) × (index p.users k ≡ ok user)
    × NodeHolds p user node (lookup user identities) (lookup k states)

abbrev pub NodesHold : Users → Dict NodeAssertion → Dict Identity → Dict UserEpochState → Type 0
NodesHold p nodes identities states = All (UserHolds p identities states) nodes

index-below : (xs : List ℤ) (k : ℤ) {x : ℤ} → index xs k ≡ ok x → leb_ℤ (pos (length xs)) k ≡ false
index-below xs (negsuc k) h = cc
index-below [] (pos k) h = cc
index-below (y ∷ xs) (pos zero) h = ground arith
index-below (y ∷ xs) (pos (suc k)) h = ground (arith, index-below xs (pos k) h)

user_of :
    {P : ℤ → Type 0} {Q : Type 0} (call : Result ℤ) (first : ℤ → Result (List AssertionError))
    (rest : Result (List AssertionError))
    → ((user : ℤ) → (first user ≡ ok []) ↔ P user)
    → (rest ≡ ok []) ↔ Q
    → ((call >>= (λ user. first user >>= (λ xs. rest >>= (λ ys. ok (xs ++ ys))))) ≡ ok [])
      ↔ (((user : ℤ) × (call ≡ ok user) × P user) × Q)
user_of {P = P} (ok user) first rest p q =
    let (to, from) = bind_of (first user) rest (p user) q in
    (
      λ h. let (a, b) = to h in ((user, refl, a), b),
      λ ((u, e, a), b). from (subst P (sym (ok_injective e)) a, b),
    )
user_of (err e) first rest p q = (λ h. cc, λ h. let bad = h.0.1 in cc)
user_of (panic e) first rest p q = (λ h. cc, λ h. let bad = h.0.1 in cc)

error_first :
    (rest : Result (List AssertionError)) (e : AssertionError)
    → (rest >>= (λ errors. ok (e ∷ errors))) ≡ ok []
    → ⊥
error_first (ok errors) e h = cc
error_first (err x) e h = cc
error_first (panic x) e h = cc

assert_nodes-ok :
    (p : Users) (nodes : Dict NodeAssertion) (identities : Dict Identity)
    (states : Dict UserEpochState)
    → (assert_nodes p nodes identities states ≡ ok []) ↔ NodesHold p nodes identities states
unfolding assert_nodes assert_node
assert_nodes-ok p [] identities states = (λ h. tt, λ h. refl)
assert_nodes-ok p ((k, node) ∷ nodes) identities states =
    elim (Bool-cases (leb_ℤ (pos (length p.users)) k)) [
      | inl b ↦ rw b (
        λ h. absurd (error_first (assert_nodes p nodes identities states) (absent_user k) h),
        λ h. let (user, e, _) = h.0 in let bad = index-below p.users k e in cc,
      )
      | inr b ↦ rw b (
          user_of (index p.users k) (λ user. assert_node p user node identities (lookup k states))
            (assert_nodes p nodes identities states)
            (λ user. assert_identity-ok p user node (lookup user identities) (lookup k states))
            (assert_nodes-ok p nodes identities states))
    ]

finish_of :
    {P Q : Type 0} (before : List AssertionError) (call : Result (List AssertionError))
    → (before ≡ []) ↔ P
    → (call ≡ ok []) ↔ Q
    → ((call >>= (λ errors. finish (before ++ errors))) ≡ ok tt) ↔ (P × Q)
unfolding finish
finish_of [] (ok []) p q = (λ h. (p.0 refl, q.0 refl), λ h. refl)
finish_of [] (ok (e ∷ errors)) p q = (λ h. cc, λ h. let bad = q.1 h.1 in cc)
finish_of (e ∷ before) (ok errors) p q = (λ h. cc, λ h. let bad = p.1 h.0 in cc)
finish_of before (err e) p q = (λ h. cc, λ h. let bad = q.1 h.1 in cc)
finish_of before (panic e) p q = (λ h. cc, λ h. let bad = q.1 h.1 in cc)

pub assert_assertion-holds :
    (p : Users) (assertion : Assertion) (active : List Identity) (identities : Dict Identity)
    (states : Dict UserEpochState)
    → (assert_assertion p assertion active identities states ≡ ok tt)
      ↔ (StatesHold active assertion.states × NodesHold p assertion.nodes identities states)
unfolding assert_assertion
assert_assertion-holds p assertion active identities states =
    finish_of (assert_node_states (get_node_states active) assertion.states)
      (assert_nodes p assertion.nodes identities states)
      (assert_node_states-nil active assertion.states)
      (assert_nodes-ok p assertion.nodes identities states)
