-- ===== src/Process/Invites/Tests.antt =====
-- Runs of the invites.
use idena_test_go.Prelude.{◌≡◌, refl, false, [], ◌∷◌, List, some, codes, All, length, take, arith}
use idena_test_go.Prelude.Result.{ok, panic, index_out_of_range}
use idena_test_go.Process.Invites.{
  Invitee, Delegated, set_delegatees, delegatee_of, timeout_min, onboarding, waits_for, pauses,
  activates,
}
use idena_test_go.Process.Invites.Delegatees.{set_delegatees_lem}

abbrev invitee : Invitee
invitee = record { address = codes "0x01"; pub_key = []; has_delegatee = false }

abbrev invitees : List Invitee
invitees = invitee ∷ invitee ∷ invitee ∷ []

test_too_many :
    set_delegatees 0 ([] ∷ [] ∷ []) (record { users = invitee ∷ []; delegatee = [] })
    ≡ panic index_out_of_range
unfolding set_delegatees
test_too_many = refl

test_timeouts : (timeout_min 10 ≡ 5) × (timeout_min 60 ≡ 52)
unfolding timeout_min
test_timeouts = (refl, refl)

test_onboarding :
    onboarding false false false 0
    ≡ waits_for "Invite" ∷ pauses ∷ activates ∷ waits_for "Candidate" ∷ []
unfolding onboarding
test_onboarding = refl

set_delegatees_lem_example :
    (after : Delegated) × (set_delegatees 0
        (codes "0xa" ∷ codes "0xb" ∷ [])
        (record { users = invitees; delegatee = [] })
      ≡ ok after)
    × (length after.users ≡ 3)
    × All (λ u. delegatee_of after u ≡ some (codes "0xb")) (take 2 after.users)
set_delegatees_lem_example =
    set_delegatees_lem (codes "0xa") (codes "0xb" ∷ []) invitees (omega arith)
