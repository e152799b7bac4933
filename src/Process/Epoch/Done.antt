-- ===== src/Process/Epoch/Done.antt =====
-- process/verification.go: whether the wait group of a test is done when all users are.
use idena_test_go.Prelude.{
  ℕ, zero, suc, ◌+◌, ◌<◌, ◌≡◌, Bool, ◌&&◌, List, [], ◌∷◌, Option, none, some, if◌then◌else◌,
}
use idena_test_go.Prelude.Int.{ℤ, pos, pos_part}
use idena_test_go.Scenario.Incoming.{Ref}
use idena_test_go.Scenario.Model.{NewUsers}
use idena_test_go.Process.Epoch.{creates_them}

-- The index of the user that creates new users.
abbrev pub creator_of : Option Ref → ℤ
creator_of none = pos 0
creator_of (some inviter) = inviter.target

-- Whether the creator is among the users of the process.
abbrev pub IsFrom : {F : Type 0} → ℕ → NewUsers F → Type 0
IsFrom n g = (k : ℕ) × (creator_of g.inviter ≡ pos k) × (k < n)

-- The new users whose creator does not take part.
abbrev pub left_out : {F : Type 0} → (takes_part : ℕ → Bool) → List (NewUsers F) → ℕ
left_out takes_part [] = 0
left_out takes_part (g ∷ groups) =
    (if takes_part (pos_part (creator_of g.inviter)) then 0 else pos_part g.count)
    + left_out takes_part groups

module _ {F : Type 0} (takes_part : ℕ → Bool) where
  -- The new users of one group that users create, `n` users from the `i`-th on.
  abbrev hits : (n i : ℕ) → NewUsers F → ℕ
  hits zero i g = 0
  hits (suc n) i g =
      (if takes_part i && creates_them (pos i) g then pos_part g.count else 0) + hits n (suc i) g
