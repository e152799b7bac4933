-- ===== src/Process/Answers.antt =====
-- process/verification.go: the answers that a user submits for the flips of a session.

mod Tests
pub mod Grades
pub mod Submitted
use idena_test_go.Prelude.{
  ℕ, zero, suc, ◌-◌, ◌%◌, Bool, true, false, ◌&&◌, not, List, [], ◌∷◌, Option, none, some, Bytes,
  length, ltb, leb, ◌==◌, if◌then◌else◌,
}
use idena_test_go.Prelude.Int.{ℤ, sub_ℕ}
use idena_test_go.Prelude.Dict.{Dict, lookup}
use idena_test_go.Prelude.Result.{Result, ok, err, panic, ◌>>=◌, index}
use idena_test_go.Scenario.Model.{UserCeremony, Ceremony}
use idena_test_go.Scenario.Conversion.Ceremonies.{none_answer, left, right}
use idena_test_go.Client.{FlipAnswer}

pub record FlipHash : Type 0 where
  pub hash : Bytes
  pub ready : Bool
  pub extra : Bool

-- What `TestContext` keeps of the two sessions.
pub record TestContext : Type 0 where
  pub short_flip_hashes : List FlipHash
  pub long_flip_hashes : List FlipHash

abbrev pub hashes_of : TestContext → Bool → List FlipHash
hashes_of context is_short =
    if is_short then context.short_flip_hashes else context.long_flip_hashes

-- `getScUserCeremony`, on the ceremonies of the scenario. A user ceremony is never nil.
pub get_sc_user_ceremony : Dict Ceremony → (epoch user : ℤ) → Option UserCeremony
unfolding lookup
get_sc_user_ceremony ceremonies epoch user = elim (lookup epoch ceremonies) [
  | none ↦ none
  | some ceremony ↦ lookup user ceremony.user_ceremonies
]

-- `determineFlipAnswer`: by the last byte but one of the hash.
unfoldable pub determine_flip_answer : FlipHash → Result ℕ
determine_flip_answer flip = if not flip.ready then ok none_answer else do
  byte ← index flip.hash (sub_ℕ (length flip.hash) 2)
  ok (if byte % 2 == 0 then left else right)

-- `reverseAnswer`
unfoldable pub reverse_answer : ℕ → ℕ
reverse_answer answer = if answer == left then right else if answer == right then left else answer

pub record Grading : Type 0 where
  pub report_all : Bool
  pub no_approves : Bool
  pub several_increased_grades : Bool

-- By the value of `rand.Intn(10)`.
abbrev pub grading_of : ℕ → Grading
grading_of random_value = record {
  report_all = random_value == 1;
  no_approves = random_value == 2;
  several_increased_grades = random_value == 3;
}

-- The grade of a flip, by the value of `rand.Intn(6)` and `increasedGradeCnt`.
unfoldable pub approved : Grading → ℕ → ℕ
approved grading r = if grading.no_approves && leb 2 (r % 256) then 0 else r % 256

unfoldable pub grade_of : Grading → ℕ → ℕ → ℕ
unfolding approved
grade_of grading r increased =
    if grading.report_all
    then 1
    else if not grading.several_increased_grades && (ltb 2 (approved grading r) && (increased == 1))
    then 2
    else approved grading r

-- `increasedGradeCnt` after a grade.
abbrev pub increased_after : ℕ → ℕ → ℕ
increased_after grade increased = if ltb 2 grade then suc increased else increased

-- The loop of `getAnswers` from its `at`-th flip on, where `draw i` is what `rand.Intn(6)` gives for
-- the `i`-th.
unfoldable pub answers_loop :
    Grading
    → (reversed : Bool) → (draw : ℕ → ℕ) → (at increased : ℕ) → List FlipHash
    → Result (List FlipAnswer)
unfolding determine_flip_answer reverse_answer grade_of
answers_loop grading reversed draw at increased [] = ok []
answers_loop grading reversed draw at increased (flip ∷ flips) =
    let grade = grade_of grading (draw at) increased in
    do
      answer ← determine_flip_answer flip
      answers ← answers_loop grading reversed draw (suc at) (increased_after grade increased) flips
      ok (
          record {
            grade = grade;
            answer = if reversed then reverse_answer answer else answer;
            hash = flip.hash;
          }
          ∷ answers)

abbrev pub fails_short_session : Option UserCeremony → Bool
fails_short_session none = false
fails_short_session (some ceremony) = ceremony.fail_short_session

-- `getAnswers`
unfoldable pub get_answers :
    (random_value : ℕ)
    → (draw : ℕ → ℕ) → Option UserCeremony
    → TestContext
    → (is_short : Bool) → Result (List FlipAnswer)
unfolding answers_loop
get_answers random_value draw ceremony context is_short =
    answers_loop (grading_of random_value) (fails_short_session ceremony && is_short) draw 0 0
      (hashes_of context is_short)

-- The loop of `submitAnswers`: an answer to an extra flip is kept only in place of a flip that is not
-- ready; `allowed` is `allowableExtraFlips`.
unfoldable pub keep : (allowed : ℕ) → List FlipAnswer → List FlipHash → List FlipAnswer
keep allowed [] flips = []
keep allowed (answer ∷ answers) [] = []
keep allowed (answer ∷ answers) (flip ∷ flips) =
    let skipped = keep allowed answers flips in
    let kept = keep (if flip.ready then allowed else suc allowed) answers flips in
    let replaced = keep (if flip.ready then allowed - 1 else suc (allowed - 1)) answers flips in
    if flip.extra then if allowed == 0 then skipped else answer ∷ replaced else answer ∷ kept

-- `submitAnswers`: the answers that it passes to the client.
unfoldable pub submit_answers :
    (random_value : ℕ)
    → (draw : ℕ → ℕ) → Option UserCeremony
    → TestContext
    → (is_short : Bool) → Result (List FlipAnswer)
unfolding get_answers keep
submit_answers random_value draw ceremony context is_short = do
  all_answers ← get_answers random_value draw ceremony context is_short
  ok (keep 0 all_answers (hashes_of context is_short))
