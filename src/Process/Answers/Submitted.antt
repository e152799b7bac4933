-- ===== src/Process/Answers/Submitted.antt =====
-- process/verification.go: which answers `submitAnswers` passes on.
use idena_test_go.Prelude.{
  ℕ, suc, ◌+◌, ◌-◌, ◌≤◌, ◌≡◌, refl, inl, inr, Bool, true, false, not, List, [], ◌∷◌, Option, length,
  All, ◌==◌, if◌then◌else◌, arith,
}
use idena_test_go.Prelude.Result.{ok}
use idena_test_go.Scenario.Model.{UserCeremony}
use idena_test_go.Client.{FlipAnswer}
use idena_test_go.Process.Answers.{FlipHash, TestContext, hashes_of, keep, submit_answers}
use idena_test_go.Process.Answers.Grades.{HasTwoBytes, Fits, Answered, get_answers-Answered}

-- How many flips are no extra flips, and how many answers are not none.
abbrev pub regular_flips : List FlipHash → ℕ
regular_flips [] = 0
regular_flips (flip ∷ flips) = if flip.extra then regular_flips flips else suc (regular_flips flips)

abbrev pub real_answers : List FlipAnswer → ℕ
real_answers [] = 0
real_answers (a ∷ answers) =
    if a.answer == 0 then real_answers answers else suc (real_answers answers)

ready_real : (ready : Bool) (answer : ℕ) → Fits ready answer → (answer == 0) ≡ not ready
ready_real true answer (inl h) = ground arith
ready_real true answer (inr h) = ground arith
ready_real false answer h = ground arith

keep-real :
    (allowed : ℕ) (answers : List FlipAnswer) (flips : List FlipHash)
    → Answered flips answers
    → real_answers (keep allowed answers flips) ≤ allowed + regular_flips flips
unfolding keep
keep-real allowed [] [] h = omega arith
keep-real allowed [] (flip ∷ flips) h = absurd h
keep-real allowed (a ∷ answers) [] h = absurd h
keep-real allowed (a ∷ answers) (flip ∷ flips) (same, fits, rest) =
    let real = ready_real flip.ready a.answer fits in
    ground (
      arith,
      real,
      keep-real allowed answers flips rest,
      keep-real (suc allowed) answers flips rest,
      keep-real (allowed - 1) answers flips rest,
      keep-real (suc (allowed - 1)) answers flips rest,
    )

keep-length :
    (allowed : ℕ) (answers : List FlipAnswer) (flips : List FlipHash)
    → Answered flips answers
    → (regular_flips flips ≤ length (keep allowed answers flips))
      × (length (keep allowed answers flips) ≤ length flips)
unfolding keep
keep-length allowed [] [] h = (omega arith, omega arith)
keep-length allowed [] (flip ∷ flips) h = absurd h
keep-length allowed (a ∷ answers) [] h = absurd h
keep-length allowed (a ∷ answers) (flip ∷ flips) (same, fits, rest) = ground (
  arith,
  keep-length allowed answers flips rest,
  keep-length (suc allowed) answers flips rest,
  keep-length (allowed - 1) answers flips rest,
  keep-length (suc (allowed - 1)) answers flips rest,
)

-- Where every hash of the session has two bytes or more, answers are submitted, and they have at most as
-- many that are not none as the session has flips that are not extra: an extra flip is answered only in
-- place of a flip that is not ready. There are at least as many answers as flips that are not extra, and
-- at most as many as flips.
pub submit_answers_lem :
    (random_value : ℕ) (draw : ℕ → ℕ) (ceremony : Option UserCeremony) (context : TestContext)
    (is_short : Bool)
    → All HasTwoBytes (hashes_of context is_short)
    → (answers : List FlipAnswer) × (submit_answers random_value draw ceremony context is_short
        ≡ ok answers)
      × (real_answers answers ≤ regular_flips (hashes_of context is_short))
      × (regular_flips (hashes_of context is_short) ≤ length answers)
      × (length answers ≤ length (hashes_of context is_short))
unfolding submit_answers
submit_answers_lem random_value draw ceremony context is_short h =
    let flips = hashes_of context is_short in
    let (all_answers, e, fit) =
      get_answers-Answered random_value draw ceremony context is_short h in
    let (least, most) = keep-length 0 all_answers flips fit in
    (
      keep 0 all_answers flips,
      rw e refl,
      omega (arith, keep-real 0 all_answers flips fit),
      least,
      most,
    )
