-- ===== src/Process/Verification/Tests.antt =====
-- A run of the two sessions of a validation.
use idena_test_go.Prelude.{
  ◌≤◌, ◌≡◌, refl, true, false, List, [], ◌∷◌, none, some, codes, ltb, arith,
}
use idena_test_go.Prelude.Result.{ok}
use idena_test_go.Client.{FlipAnswer}
use idena_test_go.Process.Flips.{Flip, assert_flip}
use idena_test_go.Process.Hashes.{Session, get_flip_hashes, get_flips}
use idena_test_go.Process.Hashes.Accepted.{not_ready}
use idena_test_go.Process.Answers.{FlipHash}
use idena_test_go.Process.Verification.{
  Part, Validation, no_hashes, short_session, long_session, pass_verification,
}
use idena_test_go.Process.Verification.Sessions.{Given, Fitting, pass_verification_lem}

abbrev ready_flip : FlipHash
ready_flip = record { hash = codes "aba"; ready = true; extra = false }

abbrev missing_flip : FlipHash
missing_flip = record { hash = codes "abc"; ready = false; extra = false }

abbrev extra_flip : FlipHash
extra_flip = record { hash = codes "abe"; ready = true; extra = true }

abbrev flips : List FlipHash
flips = ready_flip ∷ missing_flip ∷ extra_flip ∷ []

-- The deadline is over at the third attempt.
abbrev session : Session
session = record {
  load = λ n. some flips;
  late = λ n. ltb 1 n;
  words = λ n over hash. none;
  words_by_cid = λ hash. none;
  looks_up = false;
  allowed = 0;
}

abbrev part : Part
part = record { session = session; random_value = 1; draw = λ i. 0 }

abbrev empty_flip : Flip
empty_flip = record { private_hex = codes "0x"; public_hex = codes "0x" }

abbrev validation : Validation
validation = record {
  ceremony = none;
  test_index = 0;
  short = part;
  long = part;
  fuel = 5;
  from_hex = λ text. [];
  get_flip = λ hash. some empty_flip;
}

abbrev submitted : List FlipAnswer
submitted =
    record { grade = 1; answer = 1; hash = codes "aba" }
    ∷ record { grade = 1; answer = 0; hash = codes "abc" }
    ∷ record { grade = 1; answer = 1; hash = codes "abe" }
    ∷ []

test_pass_verification :
    pass_verification validation
    ≡ ok (record {
      short_answers = some submitted;
      long_answers = some submitted;
      context = no_hashes;
    })
unfolding pass_verification assert_flip
test_pass_verification = refl

short-Given : Given validation (short_session validation) flips
unfolding get_flip_hashes get_flips assert_flip
short-Given = (
  empty_flip ∷ record { private_hex = []; public_hex = [] } ∷ empty_flip ∷ [],
  refl,
  refl,
  (omega arith, (omega arith, (omega arith, tt))),
)

long-Given : Given validation (long_session validation) flips
unfolding get_flip_hashes get_flips assert_flip
long-Given = (
  empty_flip ∷ record { private_hex = []; public_hex = [] } ∷ empty_flip ∷ [],
  refl,
  refl,
  (omega arith, (omega arith, (omega arith, tt))),
)

pass_verification_lem_example :
    (short long : List FlipAnswer) × (pass_verification validation
      ≡ ok (record { short_answers = some short; long_answers = some long; context = no_hashes }))
    × Fitting flips short
    × Fitting flips long
    × (not_ready flips ≤ 3)
    × (not_ready flips ≤ 10)
pass_verification_lem_example =
    pass_verification_lem validation flips flips refl short-Given long-Given
