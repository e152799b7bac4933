-- ===== src/User/Prepared/Reports.antt =====
-- user/user_shared.go: how many flips the answers of a long session report.
use idena_test_go.Prelude.{
  ℕ, suc, ◌+◌, ◌*◌, ◌<◌, ◌≤◌, ◌≡◌, refl, ◌⊎◌, inl, Bool, false, List, [], ◌∷◌, ◌++◌, Option, none,
  some, Bytes, length, ◌==◌, arith, if◌then◌else◌,
}
use idena_test_go.Scenario.Conversion.Ceremonies.{none_answer}
use idena_test_go.Client.{FlipAnswer}
use idena_test_go.User.Prepared.{
  Mark, marks_left, marks_right, marks_grade, marks_answer, grade_reported, grade_left,
  count_report, prepare_answer, prepare_loop, prepare_answers, find_answer,
}

abbrev reports_in : Mark → ℕ
reports_in (marks_left flip) = 0
reports_in (marks_right flip) = 0
reports_in (marks_grade flip grade) = if grade == grade_reported then 1 else 0

-- The number of flips that are reported.
abbrev pub reported : List Mark → ℕ
reported [] = 0
reported (mark ∷ marks) = reports_in mark + reported marks

reported-append :
    (marks more : List Mark) → reported (marks ++ more) ≡ reported marks + reported more
reported-append [] more = omega arith
reported-append (mark ∷ marks) more = omega (arith, reported-append marks more)

reported-marks_answer : (i answer : ℕ) → reported (marks_answer i answer) ≡ 0
reported-marks_answer i answer = ground arith

-- A round keeps the number of reports, or counts one more, and reports the flip only below the limit.
abbrev Round : (n count : ℕ) → List Mark × ℕ → Type 0
Round n count (marks, count') =
    (count ≤ count')
    × ((reported marks ≡ 0)
        ⊎ ((reported marks ≡ 1) × (count' ≡ suc count) × (100 * count' < 34 * n)))

graded-Round :
    (n i count answer grade : ℕ)
    → Round n count (
      marks_answer i answer ++ marks_grade i (grade_left n (count_report grade count) grade) ∷ [],
      count_report grade count,
    )
unfolding grade_left count_report
graded-Round n i count answer grade = ground (
  arith,
  reported-marks_answer i answer,
  reported-append (marks_answer i answer)
      (marks_grade i (grade_left n (count_report grade count) grade) ∷ []),
)

prepare_answer-Round :
    (is_short : Bool) (n i count : ℕ) (answer : Option FlipAnswer)
    → Round n count (prepare_answer is_short n i count answer)
unfolding prepare_answer
prepare_answer-Round is_short n i count none = (omega arith, inl refl)
prepare_answer-Round is_short n i count (some answer) = ground (
  arith,
  graded-Round n i count answer.answer answer.grade,
  reported-marks_answer i answer.answer,
)

prepare_loop-reports :
    (find : Bytes → Option FlipAnswer) (is_short : Bool) (n i count : ℕ) (flips : List Bytes)
    → (reported (prepare_loop find is_short n i count flips) ≡ 0)
      ⊎ (100 * (count + reported (prepare_loop find is_short n i count flips)) < 34 * n)
unfolding prepare_loop
prepare_loop-reports find is_short n i count [] = inl refl
prepare_loop-reports find is_short n i count (flip ∷ flips) =
    let (marks, count') = prepare_answer is_short n i count (find flip) in
    ground (
      arith,
      prepare_answer-Round is_short n i count (find flip),
      prepare_loop-reports find is_short n (suc i) count' flips,
      reported-append marks (prepare_loop find is_short n (suc i) count' flips),
    )

-- Whether an answer asks for a report, and how many flips have such an answer.
abbrev pub asks : Option FlipAnswer → ℕ
asks none = 0
asks (some answer) =
    if answer.answer == none_answer then 0 else if answer.grade == grade_reported then 1 else 0

abbrev pub asked : (find : Bytes → Option FlipAnswer) → List Bytes → ℕ
asked find [] = 0
asked find (flip ∷ flips) = asks (find flip) + asked find flips

-- In the long session a round counts the report that is asked for, and makes it unless the limit is reached.
abbrev Asked : (n count wanted : ℕ) → List Mark × ℕ → Type 0
Asked n count wanted (marks, count') =
    (count' ≡ count + wanted)
    × (reported marks ≤ wanted)
    × ((reported marks ≡ wanted) ⊎ (34 * n ≤ 100 * count'))

graded-Asked :
    (n i count answer grade : ℕ)
    → Asked n count (if grade == grade_reported then 1 else 0) (
      marks_answer i answer ++ marks_grade i (grade_left n (count_report grade count) grade) ∷ [],
      count_report grade count,
    )
unfolding grade_left count_report
graded-Asked n i count answer grade = ground (
  arith,
  reported-marks_answer i answer,
  reported-append (marks_answer i answer)
      (marks_grade i (grade_left n (count_report grade count) grade) ∷ []),
)

prepare_answer-Asked :
    (n i count : ℕ) (answer : Option FlipAnswer)
    → Asked n count (asks answer) (prepare_answer false n i count answer)
unfolding prepare_answer
prepare_answer-Asked n i count none = (omega arith, omega arith, inl refl)
prepare_answer-Asked n i count (some answer) =
    ground (arith, graded-Asked n i count answer.answer answer.grade)

prepare_loop-Asked :
    (find : Bytes → Option FlipAnswer) (n i count : ℕ) (flips : List Bytes)
    → (reported (prepare_loop find false n i count flips) ≤ asked find flips)
      × ((reported (prepare_loop find false n i count flips) ≡ asked find flips)
          ⊎ (34 * n ≤ 100 * (count + asked find flips)))
unfolding prepare_loop
prepare_loop-Asked find n i count [] = (omega arith, inl refl)
prepare_loop-Asked find n i count (flip ∷ flips) =
    let (marks, count') = prepare_answer false n i count (find flip) in
    ground (
      arith,
      prepare_answer-Asked n i count (find flip),
      prepare_loop-Asked find n (suc i) count' flips,
      reported-append marks (prepare_loop find false n (suc i) count' flips),
    )

-- In a long session the reports that are sent are none or less than 0.34 of the flips, they are no more than
-- the answers ask for, and they are all of those unless these are 0.34 of the flips or more.
pub prepare_answers-reports :
    (parse_cid : Bytes → Option Bytes) (answers : List FlipAnswer) (flips : List Bytes)
    → let sent = reported (prepare_answers parse_cid answers flips false) in
      let wanted = asked (find_answer parse_cid answers) flips in
      ((sent ≡ 0) ⊎ (100 * sent < 34 * length flips))
      × (sent ≤ wanted)
      × ((sent ≡ wanted) ⊎ (34 * length flips ≤ 100 * wanted))
unfolding prepare_answers
prepare_answers-reports parse_cid answers flips =
    let find = find_answer parse_cid answers in
    ground (
      arith,
      prepare_loop-reports find false (length flips) 0 0 flips,
      prepare_loop-Asked find (length flips) 0 0 flips,
    )
