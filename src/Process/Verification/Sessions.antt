-- ===== src/Process/Verification/Sessions.antt =====
-- process/verification.go: what a user submits in the two sessions of a validation.
use idena_test_go.Prelude.{
  ℕ, ◌≤◌, ◌≡◌, inl, inr, refl, Bool, true, false, List, some, length, All, arith, Bool-cases,
}
use idena_test_go.Prelude.Result.{ok}
use idena_test_go.Client.{FlipAnswer}
use idena_test_go.Process.Flips.{Flip}
use idena_test_go.Process.Hashes.{Session, get_flip_hashes, get_flips}
use idena_test_go.Process.Hashes.Accepted.{not_ready}
use idena_test_go.Process.Hashes.Ends.{get_flip_hashes-Accepted}
use idena_test_go.Process.Answers.{FlipHash, TestContext, hashes_of}
use idena_test_go.Process.Answers.Grades.{HasTwoBytes}
use idena_test_go.Process.Answers.Submitted.{regular_flips, real_answers, submit_answers_lem}
use idena_test_go.Process.Verification.{
  Part, Validation, no_hashes, skips, short_session, long_session, answer_session,
  pass_verification,
}

-- The flips that a user waits for in a session: the node gives them, and each of those that are ready.
abbrev pub Given : Validation → Session → List FlipHash → Type 0
Given v s flips =
    (got : List Flip) × (get_flip_hashes s v.fuel 0 ≡ ok flips)
    × (get_flips v.from_hex v.get_flip flips ≡ ok got)
    × All HasTwoBytes flips

-- The answers to flips have at most as many that are not none as there are flips that are not extra, and
-- these are answered.
abbrev pub Fitting : List FlipHash → List FlipAnswer → Type 0
Fitting flips answers =
    (real_answers answers ≤ regular_flips flips)
    × (regular_flips flips ≤ length answers)
    × (length answers ≤ length flips)

answer_session-Fitting :
    (v : Validation) (part : Part) (s : Session) (context : TestContext) (is_short : Bool)
    (flips : List FlipHash)
    → hashes_of context is_short ≡ flips
    → Given v s flips
    → (answers : List FlipAnswer) × (answer_session v part context is_short flips ≡ ok answers)
      × Fitting flips answers
unfolding answer_session
answer_session-Fitting v part s context is_short flips here (got, _, e, bytes) =
    let (answers, run, real, least, most) =
      submit_answers_lem part.random_value part.draw v.ceremony context is_short (rw here bytes) in
    (answers, rw e run, (rw here at real, rw here at least, rw here at most))

few_missing :
    (s : Session) (fuel : ℕ) (flips : List FlipHash)
    → get_flip_hashes s fuel 0 ≡ ok flips
    → not_ready flips ≤ s.allowed
few_missing s fuel flips h =
    let (n, _, _, few) = get_flip_hashes-Accepted s fuel 0 flips h in
    elim (Bool-cases (s.late n)) [
      | inl late ↦ rw late at few
      | inr early ↦ let none_missing : not_ready flips ≤ 0 = rw early at few in omega arith
    ]

-- A user that does not skip the validation, and that gets the flips of both sessions, with hashes of two
-- bytes or more, submits answers in each of them: they have at most as many that are not none as the
-- session has flips that are not extra, at least as many as these and at most as many as flips. At most
-- 3 of the flips of the short session and 10 of the long one are not ready. At the end its context has
-- no hashes.
pub pass_verification_lem :
    (v : Validation) (flips flips' : List FlipHash)
    → skips v.ceremony ≡ false
    → Given v (short_session v) flips
    → Given v (long_session v) flips'
    → (short long : List FlipAnswer) × (pass_verification v
        ≡ ok (record { short_answers = some short; long_answers = some long; context = no_hashes }))
      × Fitting flips short
      × Fitting flips' long
      × (not_ready flips ≤ 3)
      × (not_ready flips' ≤ 10)
unfolding pass_verification
pass_verification_lem v flips flips' takes_part given given' =
    let (short, run, fit) =
      answer_session-Fitting v v.short (short_session v)
        (record no_hashes { short_flip_hashes = flips }) true flips refl given in
    let (long, run', fit') =
      answer_session-Fitting v v.long (long_session v)
        (record no_hashes { long_flip_hashes = flips' }) false flips' refl given' in
    let (_, here, _, _) = given in
    let (_, here', _, _) = given' in
    (
      short,
      long,
      rw (takes_part, here, run, here', run') refl,
      fit,
      fit',
      few_missing (short_session v) v.fuel flips here,
      few_missing (long_session v) v.fuel flips' here',
    )
