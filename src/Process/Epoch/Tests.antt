-- ===== src/Process/Epoch/Tests.antt =====
-- Runs of the steps of an epoch.
use idena_test_go.Prelude.{
  Option, none, Bool, ◌==◌, zero, suc, ◌≡◌, refl, true, false, List, [], ◌∷◌, some, codes,
}
use idena_test_go.Prelude.Int.{ℤ, pos}
use idena_test_go.Prelude.Result.{ok}
use idena_test_go.Process.Epoch.{done_by_all, added, active_after, wait_for_period}
use idena_test_go.Process.Epoch.Calls.{
  Turn, test_user, starts_test, switches_node, gets_epoch, switches_online_state, delegates_to,
}
use idena_test_go.Process.Epoch.Steps.{main_calls, played, test_user_lem}
use idena_test_go.Scenario.Incoming.{Ref}
use idena_test_go.Scenario.Model.{NewUsers}

-- A user whose node is stopped in the epoch.
abbrev turn : Turn
turn = record {
  shares = false;
  was_active = true;
  switches = record { is_start = false; delay = pos 10 } ∷ [];
  skip_epoch = false;
  validation_only = false;
  multi_bot_delegatee = some (codes "0x02");
  new_users = pos 2 ∷ [];
}

test_stopped :
    test_user turn
    ≡ starts_test
      ∷ gets_epoch
      ∷ switches_online_state
      ∷ delegates_to (codes "0x02")
      ∷ switches_node
      ∷ []
unfolding test_user
test_stopped = refl

test_period :
    wait_for_period (λ n. elim n [ zero ↦ "None" | suc k ↦ "FlipLottery" ]) "FlipLottery" 5 0 ≡ ok 2
unfolding wait_for_period
test_period = refl

-- A user whose node is started in the epoch.
abbrev starting_turn : Turn
starting_turn = record turn {
  was_active = false;
  switches = record { is_start = true; delay = pos 10 } ∷ [];
}

test_user_lem_example : main_calls (test_user starting_turn) ≡ switches_node ∷ played
unfolding active_after
test_user_lem_example = test_user_lem starting_turn

-- Two users, of which the second creates three new users and does not take part, and the first one two.
abbrev group : Option Ref → ℤ → NewUsers Bool
group inviter count = record {
  count = count;
  inviter = inviter;
  command = "";
  shared_node = none;
  invite_amount = none;
}

abbrev groups : List (NewUsers Bool)
groups = group (some (record { address = 8; target = pos 1 })) (pos 3) ∷ group none (pos 2) ∷ []

test_done : (done_by_all (λ user. user == 0) 2 0 groups ≡ 4) × (added 2 groups ≡ 7)
unfolding done_by_all added
test_done = (refl, refl)
