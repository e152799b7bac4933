-- ===== src/Process/Invites/Delegatees.antt =====
-- process/process.go: whom users of a bot delegate to, and how long a bot waits for a state.
use idena_test_go.Prelude.{
  ℕ, zero, suc, ◌+◌, ◌≤◌, ◌<◌, ◌≡◌, refl, ap, ◌∙◌, true, List, [], ◌∷◌, none, some, Bytes, length,
  take, All, arith, if◌then◌else◌,
}
use idena_test_go.Prelude.Result.{ok, ◌>>=◌}
use idena_test_go.Process.Invites.{
  Invitee, Delegated, point_at, set_delegatees, delegatee_of, timeout_min,
}

-- The users that point to the variable are the first ones.
abbrev pub point_all : ℕ → List Invitee → List Invitee
point_all zero users = users
point_all (suc n) [] = []
point_all (suc n) (u ∷ users) = record u { has_delegatee = true } ∷ point_all n users

point_at-next :
    (n : ℕ) (users : List Invitee)
    → n < length users
    → point_at n (point_all n users) ≡ ok (point_all (suc n) users)
point_at-next n [] h = absurd (omega arith)
point_at-next zero (u ∷ users) h = refl
point_at-next (suc n) (u ∷ users) h =
    ap (λ r. r >>= (λ rest. ok (record u { has_delegatee = true } ∷ rest)))
      (point_at-next n users (omega arith))

-- The last delegatee, or the one before the loop.
abbrev pub last_or : Bytes → List Bytes → Bytes
last_or d [] = d
last_or d (e ∷ delegatees) = last_or e delegatees

set_delegatees-all :
    (idx : ℕ) (delegatees : List Bytes) (d : Bytes) (users : List Invitee)
    → idx + length delegatees ≤ length users
    → set_delegatees idx delegatees (record { users = point_all idx users; delegatee = d })
      ≡ ok (record {
        users = point_all (idx + length delegatees) users;
        delegatee = last_or d delegatees;
      })
unfolding set_delegatees
set_delegatees-all idx [] d users h =
    ap (λ n. ok (record { users = point_all n users; delegatee = d })) (omega arith)
set_delegatees-all idx (e ∷ delegatees) d users h =
    ap
      (λ r.
        r >>= (λ us. set_delegatees (suc idx) delegatees (record { users = us; delegatee = e })))
      (point_at-next idx users (omega arith))
    ∙ set_delegatees-all (suc idx) delegatees e users (omega arith)
    ∙ ap (λ n. ok (record { users = point_all n users; delegatee = last_or e delegatees }))
        (omega arith)

length-point_all : (n : ℕ) (users : List Invitee) → length (point_all n users) ≡ length users
length-point_all zero users = refl
length-point_all (suc n) [] = refl
length-point_all (suc n) (u ∷ users) = ap suc (length-point_all n users)

point_all-All :
    (n : ℕ) (users : List Invitee) → All (λ u. u.has_delegatee ≡ true) (take n (point_all n users))
point_all-All zero users = tt
point_all-All (suc n) [] = tt
point_all-All (suc n) (u ∷ users) = (refl, point_all-All n users)

All-delegatee :
    (state : Delegated) (d : Bytes) (users : List Invitee)
    → state.delegatee ≡ d
    → All (λ u. u.has_delegatee ≡ true) users
    → All (λ u. delegatee_of state u ≡ some d) users
All-delegatee state d [] e h = tt
All-delegatee state d (u ∷ users) e h = (
  ap (λ b. if b then some state.delegatee else none) h.0 ∙ ap some e,
  All-delegatee state d users e h.1,
)

-- When the god bot answers with delegatees, no more than the process has users, the first users of the
-- process, one for each delegatee, all delegate to the last one of them.
pub set_delegatees_lem :
    (d : Bytes) (delegatees : List Bytes) (users : List Invitee)
    → length (d ∷ delegatees) ≤ length users
    → (after : Delegated) × (set_delegatees 0
          (d ∷ delegatees)
          (record { users = users; delegatee = [] })
        ≡ ok after)
      × (length after.users ≡ length users)
      × All
          (λ u. delegatee_of after u ≡ some (last_or d delegatees))
          (take (length (d ∷ delegatees)) after.users)
set_delegatees_lem d delegatees users h =
    let n = length (d ∷ delegatees) in
    let after : Delegated = record {
      users = point_all n users;
      delegatee = last_or d delegatees;
    } in
    let zero_left : 0 + n ≡ n = omega arith in
    (
      after,
      set_delegatees-all 0 (d ∷ delegatees) [] users (omega arith)
          ∙ ap (λ k. ok (record { users = point_all k users; delegatee = last_or d delegatees }))
              zero_left,
      length-point_all n users,
      All-delegatee after (last_or d delegatees) (take n after.users) refl (point_all-All n users),
    )

-- The wait for a state ends at most eight minutes before the offset of the ceremony is over, or half of the
-- offset before, and not later than with it.
timeout_min_lem :
    (offset : ℕ)
    → (timeout_min offset ≤ offset)
      × (offset ≤ timeout_min offset + 8)
      × (offset ≤ timeout_min offset + timeout_min offset)
unfolding timeout_min
timeout_min_lem offset = ground arith
