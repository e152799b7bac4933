-- ===== src/Process/Answers/Tests.antt =====
-- Runs of the answers of a session.
use idena_test_go.Prelude.{
  ℕ, ◌≤◌, ◌≡◌, refl, true, false, List, [], ◌∷◌, Option, none, some, codes, length, All, ◌==◌,
  if◌then◌else◌, arith,
}
use idena_test_go.Prelude.Result.{ok, panic, index_out_of_range}
use idena_test_go.Scenario.Model.{UserCeremony}
use idena_test_go.Client.{FlipAnswer}
use idena_test_go.Process.Answers.{
  FlipHash, TestContext, determine_flip_answer, get_answers, submit_answers,
}
use idena_test_go.Process.Answers.Grades.{
  Answered, GradeInRange, increased_grades, get_answers-graded,
}
use idena_test_go.Process.Answers.Submitted.{regular_flips, real_answers, submit_answers_lem}

-- A ready flip, one that is not ready, and two extra flips.
abbrev flips : List FlipHash
flips =
    record { hash = codes "aba"; ready = true; extra = false }
    ∷ record { hash = codes "abc"; ready = false; extra = false }
    ∷ record { hash = codes "abd"; ready = true; extra = true }
    ∷ record { hash = codes "abe"; ready = true; extra = true }
    ∷ []

abbrev context : TestContext
context = record { short_flip_hashes = flips; long_flip_hashes = [] }

abbrev failing : Option UserCeremony
failing = some (record {
  submit_flips = none;
  skip_validation = false;
  fail_short_session = true;
  skip_epoch = false;
})

abbrev draw : ℕ → ℕ
draw i = 4

abbrev given : List FlipAnswer
given =
    record { grade = 4; answer = 2; hash = codes "aba" }
    ∷ record { grade = 2; answer = 0; hash = codes "abc" }
    ∷ record { grade = 2; answer = 2; hash = codes "abd" }
    ∷ record { grade = 2; answer = 2; hash = codes "abe" }
    ∷ []

test_get_answers : get_answers 7 draw failing context true ≡ ok given
unfolding get_answers
test_get_answers = refl

-- The second extra flip is left out.
test_submit_answers :
    submit_answers 1 draw none context true
    ≡ ok (
        record { grade = 1; answer = 1; hash = codes "aba" }
        ∷ record { grade = 1; answer = 0; hash = codes "abc" }
        ∷ record { grade = 1; answer = 1; hash = codes "abd" }
        ∷ [])
unfolding submit_answers
test_submit_answers = refl

test_short_hash :
    determine_flip_answer (record { hash = codes "a"; ready = true; extra = false })
    ≡ panic index_out_of_range
unfolding determine_flip_answer
test_short_hash = refl

get_answers-graded_example :
    (answers : List FlipAnswer) × (get_answers 7 draw failing context true ≡ ok answers)
    × Answered flips answers
    × All (GradeInRange 7) answers
    × (increased_grades answers ≤ (if 7 == 3 then length flips else 1))
get_answers-graded_example =
    get_answers-graded 7 draw failing context true
      (omega arith, (omega arith, (omega arith, (omega arith, tt)))) (λ i. omega arith)

submit_answers_lem_example :
    (answers : List FlipAnswer) × (submit_answers 7 draw failing context true ≡ ok answers)
    × (real_answers answers ≤ regular_flips flips)
    × (regular_flips flips ≤ length answers)
    × (length answers ≤ length flips)
submit_answers_lem_example =
    submit_answers_lem 7 draw failing context true
      (omega arith, (omega arith, (omega arith, (omega arith, tt))))
