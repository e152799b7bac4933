-- ===== src/Scenario/Conversion/Ceremonies/Tests.antt =====
-- Runs of the conversion of ceremonies and answers.
use idena_test_go.Prelude.{arith, ℕ, length, ◌≡◌, refl, List, [], ◌∷◌}
use idena_test_go.Prelude.Int.{ℤ, pos}
use idena_test_go.Scenario.Incoming
use idena_test_go.Scenario.Incoming.{
  EpochsNodes, DelayedEpochsNodes, NodeUpdates, Delegations, Transactions, AddStakes,
  KillDelegators, KillInvitees,
}
use idena_test_go.Scenario.Model
use idena_test_go.Scenario.Model.{NodeSwitch}
use idena_test_go.Scenario.Conversion.Ceremonies.{get_answers, answers_of, get_answer_rates}
use idena_test_go.Scenario.Conversion.Ceremonies.Rates.{get_answer_rates_lem}

abbrev some_answers : List Incoming.Answer
some_answers = record { index = pos 1; answer = 2 } ∷ record { index = pos 1; answer = 3 } ∷ []

test_get_answers : get_answers (answers_of 1 some_answers) (pos 3) ≡ 1 ∷ 3 ∷ 1 ∷ []
unfolding get_answers answers_of
test_get_answers = refl

-- Two rates of one half, and three flips: each share of 1.5 is rounded to 2.
abbrev halves : Model.AnswerRates ℕ
halves = record { left = 2; right = 2; inappropriate = 0 }

abbrev rounded_halves : ℤ → ℕ → ℤ
rounded_halves count rate = pos rate

get_answer_rates_lem_example : length (get_answer_rates rounded_halves halves (pos 3)) ≡ 4
get_answer_rates_lem_example =
    get_answer_rates_lem rounded_halves halves 3 2 2 0 refl refl refl (omega arith) (omega arith)
