-- ===== src/Process/Assertion/Holds.antt =====
-- process/assertion.go: what it means that one assertion of a test holds.
use idena_test_go.Prelude.{
  ℕ, suc, ◌+◌, ◌≡◌, ◌↔◌, ◌⊎◌, inl, inr, refl, sym, ap, Bool, true, false, ◌||◌, List, [], ◌∷◌, ◌++◌,
  Option, none, some, String, All, if◌then◌else◌, ==_iff, arith,
}
use idena_test_go.Prelude.Int.{ℤ, pos, ◌==ℤ◌, ==ℤ_iff}
use idena_test_go.Prelude.Result.{Result, ok, err, panic, ◌>>=◌}
use idena_test_go.Scenario.Model.{StateAssertion}
use idena_test_go.Process.Assertion.{
  Identity, UserEpochState, AssertionError, error_unless, bump, add_states, get_node_states,
  assert_node_states, to_uint8, same_bool, flips_errors, state_errors, invites_errors,
  online_errors,
}
use text.Mathlib.Text.{◌==◌ as ◌=s=◌}
use text.Mathlib.TextEquality.{eq_iff}

-- How many identities have a state.
abbrev pub count_of : String → List Identity → ℕ
count_of s [] = 0
count_of s (identity ∷ identities) =
    if identity.state =s= s then suc (count_of s identities) else count_of s identities

add_states-count_of :
    (identities : List Identity) (states : String → ℕ) (s : String)
    → add_states identities states s ≡ states s + count_of s identities
unfolding add_states
add_states-count_of [] states s = ground arith
add_states-count_of (identity ∷ identities) states s =
    ground (arith, add_states-count_of identities (bump identity.state states) s)

pub ok_injective : {A : Type 0} {a b : A} → ok a ≡ ok b → a ≡ b
ok_injective h = cc

-- A list of errors is empty just where what it is made of is.
pub append_of :
    {P Q : Type 0} (xs ys : List AssertionError)
    → (xs ≡ []) ↔ P
    → (ys ≡ []) ↔ Q
    → ((xs ++ ys) ≡ []) ↔ (P × Q)
append_of [] ys p q = (λ h. (p.0 refl, q.0 h), λ h. q.1 h.1)
append_of (x ∷ xs) ys p q = (λ h. cc, λ h. let none_left : (x ∷ xs) ≡ [] = p.1 h.0 in cc)

pub unless_of :
    {P : Type 0} (b : Bool) (e : AssertionError) → (b ≡ true) ↔ P → (error_unless b e ≡ []) ↔ P
unless_of true e p = (λ h. p.0 refl, λ h. refl)
unless_of false e p = (λ h. cc, λ h. let bad : false ≡ true = p.1 h in cc)

pub bind_of :
    {P Q : Type 0} (first rest : Result (List AssertionError))
    → (first ≡ ok []) ↔ P
    → (rest ≡ ok []) ↔ Q
    → (first >>= (λ xs. rest >>= (λ ys. ok (xs ++ ys))) ≡ ok []) ↔ (P × Q)
bind_of (ok []) (ok ys) p q = (λ h. (p.0 refl, q.0 h), λ h. q.1 h.1)
bind_of (ok (x ∷ xs)) (ok ys) p q = (λ h. cc, λ h. let bad : ok (x ∷ xs) ≡ ok [] = p.1 h.0 in cc)
bind_of (ok xs) (err e) p q = (λ h. cc, λ h. let bad : err e ≡ ok [] = q.1 h.1 in cc)
bind_of (ok xs) (panic e) p q = (λ h. cc, λ h. let bad : panic e ≡ ok [] = q.1 h.1 in cc)
bind_of (err e) rest p q = (λ h. cc, λ h. let bad : err e ≡ ok [] = p.1 h.0 in cc)
bind_of (panic e) rest p q = (λ h. cc, λ h. let bad : panic e ≡ ok [] = p.1 h.0 in cc)

-- The assertions on states hold if each has the number of identities that have the state.
abbrev pub StatesHold : List Identity → List StateAssertion → Type 0
StatesHold identities = All (λ s. pos (count_of s.state identities) ≡ s.count)

counted :
    (identities : List Identity) (s : String) → get_node_states identities s ≡ count_of s identities
unfolding get_node_states
counted identities s = ground (arith, add_states-count_of identities (λ s. 0) s)

pub assert_node_states-nil :
    (identities : List Identity) (states : List StateAssertion)
    → (assert_node_states (get_node_states identities) states ≡ []) ↔ StatesHold identities states
unfolding assert_node_states
assert_node_states-nil identities [] = (λ h. tt, λ h. refl)
assert_node_states-nil identities (s ∷ states) =
    append_of _ _
      (unless_of _ _
        (rw (counted identities s.state) (==ℤ_iff (pos (count_of s.state identities)) s.count)))
      (assert_node_states-nil identities states)

abbrev pub StateHolds : Option String → String → Type 0
StateHolds none state = Unit
StateHolds (some s) state = state ≡ s

-- Only the last eight bits of the expected number count.
abbrev pub InvitesHold : Option ℤ → ℕ → Type 0
InvitesHold none invites = Unit
InvitesHold (some n) invites = invites ≡ to_uint8 n

abbrev pub OnlineHolds : Option Bool → Bool → Type 0
OnlineHolds none online = Unit
OnlineHolds (some b) online = online ≡ b

abbrev pub FlipsHold : Option ℤ → Bool → Option UserEpochState → (UserEpochState → ℤ) → Type 0
FlipsHold none exempt ues flips = Unit
FlipsHold (some m) exempt none flips = ⊥
FlipsHold (some m) exempt (some ues) flips = (flips ues ≡ m) ⊎ (exempt ≡ true)

pub state_errors-nil :
    (user : ℤ) (expected : Option String) (state : String)
    → (state_errors user expected state ≡ []) ↔ StateHolds expected state
state_errors-nil user none state = (λ h. tt, λ h. refl)
state_errors-nil user (some s) state = unless_of _ _ (eq_iff state s)

pub invites_errors-nil :
    (user : ℤ) (expected : Option ℤ) (invites : ℕ)
    → (invites_errors user expected invites ≡ []) ↔ InvitesHold expected invites
invites_errors-nil user none invites = (λ h. tt, λ h. refl)
invites_errors-nil user (some n) invites = unless_of _ _ (==_iff invites (to_uint8 n))

same_bool_iff : (a b : Bool) → (same_bool a b ≡ true) ↔ (a ≡ b)
same_bool_iff true b = (sym, sym)
same_bool_iff false true = (λ h. cc, λ h. cc)
same_bool_iff false false = (λ h. refl, λ h. refl)

pub online_errors-nil :
    (user : ℤ) (expected : Option Bool) (online : Bool)
    → (online_errors user expected online ≡ []) ↔ OnlineHolds expected online
online_errors-nil user none online = (λ h. tt, λ h. refl)
online_errors-nil user (some b) online = unless_of _ _ (same_bool_iff online b)

or_iff : (a b : Bool) → ((a || b) ≡ true) ↔ ((a ≡ true) ⊎ (b ≡ true))
or_iff true b = (λ h. inl refl, λ h. refl)
or_iff false b = (λ h. inr h, λ h. elim h [ inl x ↦ cc | inr y ↦ y ])

equal_or : (a b : ℤ) (c : Bool) → (((a ==ℤ b) || c) ≡ true) ↔ ((a ≡ b) ⊎ (c ≡ true))
equal_or a b c =
    let (to, from) = ==ℤ_iff a b in
    let (split, join) = or_iff (a ==ℤ b) c in
    (
      λ h. elim (split h) [ inl x ↦ inl (to x) | inr y ↦ inr y ],
      λ h. elim h [ inl x ↦ join (inl (from x)) | inr y ↦ join (inr y) ],
    )

pub flips_errors-nil :
    (expected : Option ℤ) (exempt : Bool) (ues : Option UserEpochState) (flips : UserEpochState → ℤ)
    (e : ℤ → ℤ → AssertionError)
    → (flips_errors expected exempt ues flips e ≡ ok []) ↔ FlipsHold expected exempt ues flips
flips_errors-nil none exempt ues flips e = (λ h. tt, λ h. refl)
flips_errors-nil (some m) exempt none flips e = (λ h. cc, λ h. absurd h)
flips_errors-nil (some m) exempt (some ues) flips e =
    let (to, from) = unless_of _ (e m (flips ues)) (equal_or (flips ues) m exempt) in
    (λ h. to (ok_injective h), λ h. ap ok (from h))
