-- ===== src/Process/Verification.antt =====
-- process/verification.go: the two sessions of a validation.
mod Tests
pub mod Sessions
use idena_test_go.Prelude.{
  ℕ, Bool, true, false, List, [], ◌∷◌, Option, none, some, Bytes, if◌then◌else◌,
}
use idena_test_go.Prelude.Result.{Result, ok, ◌>>=◌}
use idena_test_go.Scenario.Model.{UserCeremony}
use idena_test_go.Client.{FlipAnswer}
use idena_test_go.Process.Flips.{Flip}
use idena_test_go.Process.Hashes.{Session, looks_up_words, get_flip_hashes, get_flips}
use idena_test_go.Process.Answers.{FlipHash, TestContext, submit_answers}

-- What a user meets in a session, besides the flips: its two random values for the grades.
pub record Part : Type 0 where
  pub session : Session
  pub random_value : ℕ
  pub draw : ℕ → ℕ

-- What a user meets in a validation: the section of the scenario on it, the test, the two sessions, and
-- the flips that the node gives, with `FromHex` of idena-go.
pub record Validation : Type 0 where
  pub ceremony : Option UserCeremony
  pub test_index : ℕ
  pub short : Part
  pub long : Part
  pub fuel : ℕ
  pub from_hex : Bytes → Bytes
  pub get_flip : Bytes → Option Flip

-- The answers that are submitted, where they are, and the context at the end.
pub record Passed : Type 0 where
  pub short_answers : Option (List FlipAnswer)
  pub long_answers : Option (List FlipAnswer)
  pub context : TestContext

abbrev pub no_hashes : TestContext
no_hashes = record { short_flip_hashes = []; long_flip_hashes = [] }

abbrev pub skips : Option UserCeremony → Bool
skips none = false
skips (some ceremony) = ceremony.skip_validation

-- The arguments of `getFlipHashes`: 3 flips may be missing in the short session, and 10 in the long one.
abbrev pub short_session : Validation → Session
short_session v = record v.short.session {
  looks_up = looks_up_words true v.test_index;
  allowed = 3;
}

abbrev pub long_session : Validation → Session
long_session v = record v.long.session {
  looks_up = looks_up_words false v.test_index;
  allowed = 10;
}

-- `getFlips` and `submitAnswers` of a session, for the context that `getFlipHashes` has left.
unfoldable pub answer_session :
    Validation → Part → TestContext → (is_short : Bool) → List FlipHash → Result (List FlipAnswer)
unfolding get_flips submit_answers
answer_session v part context is_short flips =
    get_flips v.from_hex v.get_flip flips
    >>= (λ got. submit_answers part.random_value part.draw v.ceremony context is_short)

-- `passVerification` from a context without hashes on, which `initTest` makes. The keys that are sent
-- before, the number of required flips, which is only logged, the times and the open short answers are
-- left out.
unfoldable pub pass_verification : Validation → Result Passed
unfolding get_flip_hashes answer_session
pass_verification v =
    if skips v.ceremony
    then ok (record { short_answers = none; long_answers = none; context = no_hashes })
    else (get_flip_hashes (short_session v) v.fuel 0 >>= (λ flips.
        answer_session v v.short (record no_hashes { short_flip_hashes = flips }) true flips
        >>= (λ short. get_flip_hashes (long_session v) v.fuel 0 >>= (λ flips'.
            answer_session v v.long (record no_hashes { long_flip_hashes = flips' }) false flips'
            >>= (λ long. ok (record {
              short_answers = some short;
              long_answers = some long;
              context = no_hashes;
            }))))))
