-- ===== src/Process/Answers/Grades.antt =====
-- process/verification.go: what `getAnswers` answers, and the grades it gives.
use idena_test_go.Prelude.{
  ℕ, suc, ◌+◌, ◌-◌, ◌%◌, ◌≤◌, ◌<◌, ◌≡◌, refl, ◌⊎◌, inl, inr, Bool, true, false, ◌&&◌, ◌||◌, List,
  [], ◌∷◌, Option, Bytes, length, All, ◌==◌, if◌then◌else◌, arith, Bool-cases, get_elem-below,
}
use idena_test_go.Prelude.Int.{sub_ℕ, pos}
use idena_test_go.Prelude.Result.{Result, ok, err, panic, ◌>>=◌, index}
use idena_test_go.Scenario.Model.{UserCeremony}
use idena_test_go.Scenario.Conversion.Ceremonies.{none_answer, left, right}
use idena_test_go.Client.{FlipAnswer}
use idena_test_go.Process.Answers.{
  FlipHash, TestContext, hashes_of, determine_flip_answer, reverse_answer, Grading, grading_of,
  approved, grade_of, increased_after, answers_loop, fails_short_session, get_answers,
}

-- How many answers have a grade above 2.
abbrev pub increased_grades : List FlipAnswer → ℕ
increased_grades [] = 0
increased_grades (a ∷ answers) = increased_after a.grade (increased_grades answers)

abbrev pub HasTwoBytes : FlipHash → Type 0
HasTwoBytes flip = 2 ≤ length flip.hash

index-below : (s : Bytes) (i : ℕ) → i < length s → (b : ℕ) × (index s (pos i) ≡ ok b)
index-below s i h = let (b, e) = get_elem-below s i h in (b, rw (index, e) refl)

-- Every answer to a ready flip is a side, and every other is none.
abbrev pub Fits : Bool → ℕ → Type 0
Fits true answer = (answer ≡ left) ⊎ (answer ≡ right)
Fits false answer = answer ≡ none_answer

side_of_parity :
    (b : Bool) → ((if b then left else right) ≡ left) ⊎ ((if b then left else right) ≡ right)
side_of_parity true = inl refl
side_of_parity false = inr refl

pub determine_flip_answer_lem :
    (flip : FlipHash)
    → HasTwoBytes flip
    → (answer : ℕ) × (determine_flip_answer flip ≡ ok answer) × Fits flip.ready answer
unfolding determine_flip_answer
determine_flip_answer_lem flip h =
    let (b, e) = index-below flip.hash (length flip.hash - 2) (omega arith) in
    let at : sub_ℕ (length flip.hash) 2 ≡ pos (length flip.hash - 2) = ground arith in
    elim (Bool-cases flip.ready) [
      | inl r ↦ (
        if b % 2 == 0 then left else right,
        rw (r, at, e) refl,
        rw r (side_of_parity (b % 2 == 0)),
      )
      | inr r ↦ (none_answer, rw r refl, rw r refl)
    ]

reverse_answer-Fits :
    (ready : Bool) (answer : ℕ) → Fits ready answer → Fits ready (reverse_answer answer)
unfolding reverse_answer
reverse_answer-Fits false answer h = ground arith
reverse_answer-Fits true answer h = ground arith

-- One answer for each flip: its hash, and what fits the flip.
abbrev pub Answered : List FlipHash → List FlipAnswer → Type 0
Answered [] [] = Unit
Answered [] (a ∷ answers) = ⊥
Answered (flip ∷ flips) [] = ⊥
Answered (flip ∷ flips) (a ∷ answers) =
    (a.hash ≡ flip.hash) × Fits flip.ready a.answer × Answered flips answers

turned-Fits :
    (reversed ready : Bool) (answer : ℕ)
    → Fits ready answer
    → Fits ready (if reversed then reverse_answer answer else answer)
turned-Fits true ready answer h = reverse_answer-Fits ready answer h
turned-Fits false ready answer h = h

answers_loop-Answered :
    (grading : Grading) (reversed : Bool) (draw : ℕ → ℕ) (at increased : ℕ) (flips : List FlipHash)
    → All HasTwoBytes flips
    → (answers : List FlipAnswer) × (answers_loop grading reversed draw at increased flips
        ≡ ok answers)
      × Answered flips answers
unfolding answers_loop
answers_loop-Answered grading reversed draw at increased [] h = ([], refl, tt)
answers_loop-Answered grading reversed draw at increased (flip ∷ flips) h =
    let (answer, e, fits) = determine_flip_answer_lem flip h.0 in
    let (answers, es, rest) =
      answers_loop-Answered grading reversed draw (suc at)
        (increased_after (grade_of grading (draw at) increased) increased) flips h.1 in
    let first : FlipAnswer = record {
      grade = grade_of grading (draw at) increased;
      answer = if reversed then reverse_answer answer else answer;
      hash = flip.hash;
    } in
    (first ∷ answers, rw (e, es) refl, (refl, turned-Fits reversed flip.ready answer fits, rest))

pub get_answers-Answered :
    (random_value : ℕ) (draw : ℕ → ℕ) (ceremony : Option UserCeremony) (context : TestContext)
    (is_short : Bool)
    → All HasTwoBytes (hashes_of context is_short)
    → (answers : List FlipAnswer) × (get_answers random_value draw ceremony context is_short
        ≡ ok answers)
      × Answered (hashes_of context is_short) answers
unfolding get_answers
get_answers-Answered random_value draw ceremony context is_short h =
    answers_loop-Answered (grading_of random_value) (fails_short_session ceremony && is_short) draw
      0 0 (hashes_of context is_short) h

-- The least and the greatest grade, by the random value that chooses how a user grades.
abbrev pub least_grade : ℕ → ℕ
least_grade random_value = if random_value == 1 then 1 else 0

abbrev pub greatest_grade : ℕ → ℕ
greatest_grade random_value = if (random_value == 1) || (random_value == 2) then 1 else 5

abbrev pub GradeInRange : ℕ → FlipAnswer → Type 0
GradeInRange random_value a =
    (least_grade random_value ≤ a.grade) × (a.grade ≤ greatest_grade random_value)

grade_of_bounds :
    (random_value r increased : ℕ)
    → r < 6
    → (least_grade random_value ≤ grade_of (grading_of random_value) r increased)
      × (grade_of (grading_of random_value) r increased ≤ greatest_grade random_value)
unfolding grade_of approved
grade_of_bounds random_value r increased h = ground arith

-- Unless several grades above 2 are allowed, the second one is not given.
increased_bound :
    (random_value r increased at : ℕ)
    → r < 6
    → increased ≤ (if random_value == 3 then at else 1)
    → increased_after (grade_of (grading_of random_value) r increased) increased
      ≤ (if random_value == 3 then suc at else 1)
unfolding grade_of approved
increased_bound random_value r increased at h few = ground arith

increased_sum :
    (grade increased others : ℕ)
    → increased_after grade increased + others ≡ increased + increased_after grade others
increased_sum grade increased others = ground arith

loop_step :
    (first : Result ℕ) (rest : Result (List FlipAnswer)) (make : ℕ → FlipAnswer)
    (answers : List FlipAnswer)
    → (first >>= λ a. rest >>= λ as'. ok (make a ∷ as')) ≡ ok answers
    → (a : ℕ) × (as' : List FlipAnswer) × (rest ≡ ok as') × (answers ≡ make a ∷ as')
loop_step (ok a) (ok as') make answers h = (a, as', refl, cc)
loop_step (ok a) (err e) make answers h = cc
loop_step (ok a) (panic e) make answers h = cc
loop_step (err e) rest make answers h = cc
loop_step (panic e) rest make answers h = cc

module _ (random_value : ℕ) (reversed : Bool) (draw : ℕ → ℕ) (small : (i : ℕ) → draw i < 6) where
  abbrev Graded : (at increased : ℕ) → List FlipHash → List FlipAnswer → Type 0
  Graded at increased flips answers =
      All (GradeInRange random_value) answers
      × (increased + increased_grades answers
          ≤ (if random_value == 3 then at + length flips else 1))

  answers_loop-Graded :
      (at increased : ℕ) (flips : List FlipHash) (answers : List FlipAnswer)
      → increased ≤ (if random_value == 3 then at else 1)
      → answers_loop (grading_of random_value) reversed draw at increased flips ≡ ok answers
      → Graded at increased flips answers
  unfolding answers_loop
  answers_loop-Graded at increased [] [] few h = (tt, ground arith)
  answers_loop-Graded at increased [] (a ∷ answers) few h = cc
  answers_loop-Graded at increased (flip ∷ flips) answers few h =
      let grade = grade_of (grading_of random_value) (draw at) increased in
      let make : ℕ → FlipAnswer = λ a. record {
        grade = grade;
        answer = if reversed then reverse_answer a else a;
        hash = flip.hash;
      } in
      let (a, rest, e, whole) =
        loop_step (determine_flip_answer flip)
          (answers_loop (grading_of random_value) reversed draw (suc at)
            (increased_after grade increased) flips)
          make answers h in
      let (ranges, sum) =
        answers_loop-Graded (suc at) (increased_after grade increased) flips rest
          (increased_bound random_value (draw at) increased at (small at) few) e in
      rw whole (
        (grade_of_bounds random_value (draw at) increased (small at), ranges),
        ground (arith, sum, increased_sum grade increased (increased_grades rest)),
      )

get_answers-grades :
    (random_value : ℕ) (draw : ℕ → ℕ) (ceremony : Option UserCeremony) (context : TestContext)
    (is_short : Bool) (answers : List FlipAnswer)
    → ((i : ℕ) → draw i < 6)
    → get_answers random_value draw ceremony context is_short ≡ ok answers
    → All (GradeInRange random_value) answers
      × (increased_grades answers
          ≤ (if random_value == 3 then length (hashes_of context is_short) else 1))
unfolding get_answers
get_answers-grades random_value draw ceremony context is_short answers small h =
    let (ranges, sum) =
      answers_loop-Graded random_value (fails_short_session ceremony && is_short) draw small 0 0
        (hashes_of context is_short) answers (ground arith) h in
    (ranges, ground (arith, sum))

-- Where every hash of the session has two bytes or more, `getAnswers` does not panic, and it gives one
-- answer for each flip, in their order: with the flip's hash, left or right if the flip is ready, and
-- none if it is not, whether or not the user fails the session. Where `rand.Intn(6)` is below 6, the
-- grades are from the least to the greatest one of the random value: all are 1 if it is 1, at most 1 if
-- it is 2, and at most 5 otherwise; and at most one is above 2, unless the random value is 3.
pub get_answers-graded :
    (random_value : ℕ) (draw : ℕ → ℕ) (ceremony : Option UserCeremony) (context : TestContext)
    (is_short : Bool)
    → All HasTwoBytes (hashes_of context is_short)
    → ((i : ℕ) → draw i < 6)
    → (answers : List FlipAnswer) × (get_answers random_value draw ceremony context is_short
        ≡ ok answers)
      × Answered (hashes_of context is_short) answers
      × All (GradeInRange random_value) answers
      × (increased_grades answers
          ≤ (if random_value == 3 then length (hashes_of context is_short) else 1))
get_answers-graded random_value draw ceremony context is_short h small =
    let (answers, e, fit) = get_answers-Answered random_value draw ceremony context is_short h in
    let (ranges, few) =
      get_answers-grades random_value draw ceremony context is_short answers small e in
    (answers, e, fit, ranges, few)
