-- ===== src/User/Prepared.antt =====
-- user/user_shared.go: the answers that a user of a shared node sends for the flips of a session.
pub mod Reports
use idena_test_go.Prelude.{
  ℕ, zero, suc, ◌+◌, ◌*◌, ◌%◌, Bool, true, false, ◌&&◌, not, List, [], ◌∷◌, ◌++◌, Option, none,
  some, Bytes, String, length, map, leb, ◌==◌, if◌then◌else◌,
}
use idena_test_go.Process.Flips.{same_text}
use idena_test_go.Process.Answers.{FlipHash}
use idena_test_go.Scenario.Conversion.Ceremonies.{none_answer, left, right}
use idena_test_go.Client.{FlipAnswer}

-- The grades of idena-go that the code names, `types.GradeNone` and `types.GradeReported`.
abbrev pub grade_none : ℕ
grade_none = 0

abbrev pub grade_reported : ℕ
grade_reported = 1

-- The calls of `types.Answers` of idena-go, with the number of the flip.
pub data Mark : Type 0 where
  marks_left marks_right : (flip : ℕ) → Mark
  marks_grade : (flip grade : ℕ) → Mark

-- `findAnswer`: the first answer whose hash reads as the bytes of the flip, where `parse_cid` gives the
-- bytes of a text, if it reads as a CID.
unfoldable pub find_answer :
    (parse_cid : Bytes → Option Bytes) → List FlipAnswer → Bytes → Option FlipAnswer
unfolding same_text
find_answer parse_cid [] hash = none
find_answer parse_cid (answer ∷ answers) hash =
    let rest = find_answer parse_cid answers hash in
    elim (parse_cid answer.hash) [
      | none ↦ rest
      | some cid ↦ if same_text cid hash then some answer else rest
    ]

-- `float32(reportsCount)/float32(len(flips)) >= 0.34`, which rounding does not change with less than 2^19
-- flips.
abbrev pub at_limit : (reports_count flips_count : ℕ) → Bool
at_limit reports_count flips_count = leb (34 * flips_count) (100 * reports_count)

abbrev pub marks_answer : (i answer : ℕ) → List Mark
marks_answer i answer =
    if answer == left then marks_left i ∷ [] else if answer == right then marks_right i ∷ [] else []

-- The grade that is left of one, by the number of reports with it.
unfoldable pub grade_left : (flips_count reports_count grade : ℕ) → ℕ
grade_left flips_count reports_count grade =
    if grade == grade_reported && at_limit reports_count flips_count then grade_none else grade

unfoldable pub count_report : (grade reports_count : ℕ) → ℕ
count_report grade reports_count =
    if grade == grade_reported then suc reports_count else reports_count

-- One round of the loop of `prepareAnswers`: the calls, and the number of reports after it.
unfoldable pub prepare_answer :
    (is_short : Bool) → (flips_count i reports_count : ℕ) → Option FlipAnswer → List Mark × ℕ
unfolding grade_left count_report
prepare_answer is_short flips_count i reports_count none = ([], reports_count)
prepare_answer is_short flips_count i reports_count (some answer) =
    let reports = count_report answer.grade reports_count in
    if answer.answer == none_answer
    then ([], reports_count)
    else if is_short
    then (marks_answer i answer.answer, reports_count)
    else (
      marks_answer i answer.answer
          ++ marks_grade i (grade_left flips_count reports answer.grade) ∷ [],
      reports,
    )

-- The loop from the `i`-th flip on.
unfoldable pub prepare_loop :
    (find : Bytes → Option FlipAnswer)
    → (is_short : Bool) → (flips_count i reports_count : ℕ) → List Bytes
    → List Mark
unfolding prepare_answer
prepare_loop find is_short flips_count i reports_count [] = []
prepare_loop find is_short flips_count i reports_count (flip ∷ flips) =
    let (marks, reports) = prepare_answer is_short flips_count i reports_count (find flip) in
    marks ++ prepare_loop find is_short flips_count (suc i) reports flips

-- `prepareAnswers`, as the calls that it makes on the new answers.
unfoldable pub prepare_answers :
    (parse_cid : Bytes → Option Bytes)
    → List FlipAnswer
    → List Bytes
    → (is_short : Bool) → List Mark
unfolding find_answer prepare_loop
prepare_answers parse_cid answers flips is_short =
    prepare_loop (find_answer parse_cid answers) is_short (length flips) 0 0 flips

-- The bytes of the flips of a session: those of an undefined CID, which are none, where a hash is not one.
abbrev pub cid_or_empty : Option Bytes → Bytes
cid_or_empty none = []
cid_or_empty (some cid) = cid

abbrev pub flips_of : (parse_cid : Bytes → Option Bytes) → List FlipHash → List Bytes
flips_of parse_cid = map (λ flip. cid_or_empty (parse_cid flip.hash))
