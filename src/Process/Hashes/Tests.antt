-- ===== src/Process/Hashes/Tests.antt =====
-- Runs of the wait for the flips of a session.
use idena_test_go.Prelude.{
  ℕ, ◌≡◌, refl, true, false, List, [], ◌∷◌, Option, none, some, codes, ltb, arith,
}
use idena_test_go.Prelude.Int.{pos}
use idena_test_go.Prelude.Result.{ok, panic, endless_loop, exited, wrong_words, not_reversed}
use idena_test_go.Process.Flips.{Flip}
use idena_test_go.Process.Answers.{FlipHash}
use idena_test_go.Process.Hashes.{
  Session, count_not_ready, check_flip_hashes, too_many, get_flip_hashes, get_flips,
}
use idena_test_go.Process.Hashes.Accepted.{enough, allowed_at}
use idena_test_go.Process.Hashes.Ends.{
  Accepted, get_flip_hashes-Accepted, get_flip_hashes-first, get_flip_hashes-endless,
}

abbrev ready_flip : FlipHash
ready_flip = record { hash = codes "aba"; ready = true; extra = false }

abbrev missing_flip : FlipHash
missing_flip = record { hash = codes "abc"; ready = false; extra = false }

abbrev flips_at : ℕ → Option (List FlipHash)
flips_at n = some (ready_flip ∷ missing_flip ∷ missing_flip ∷ [])

-- One flip may be missing, or two, after the deadline, which is over from the third attempt on.
abbrev session : ℕ → Session
session allowed = record {
  load = flips_at;
  late = λ n. ltb 1 n;
  words = λ n over hash. some (record { first = pos 1; second = pos 2 });
  words_by_cid = λ hash. none;
  looks_up = false;
  allowed = allowed;
}

test_words :
    count_not_ready
      (λ hash. some (1, 3))
      true
      (λ hash. some (record { first = pos 1; second = pos 2 }))
      (ready_flip ∷ [])
    ≡ panic (exited wrong_words)
unfolding count_not_ready
test_words = refl

test_too_many :
    check_flip_hashes (λ hash. none) false (λ hash. none) (missing_flip ∷ missing_flip ∷ []) 1
    ≡ ok (too_many 2)
unfolding check_flip_hashes
test_too_many = refl

test_get_flips :
    get_flips
      (λ text. text)
      (λ hash. some (record { private_hex = codes "a"; public_hex = codes "b" }))
      (missing_flip ∷ ready_flip ∷ [])
    ≡ panic (exited not_reversed)
unfolding get_flips idena_test_go.Process.Flips.assert_flip
test_get_flips = refl

test_waits : get_flip_hashes (session 2) 3 0 ≡ ok (ready_flip ∷ missing_flip ∷ missing_flip ∷ [])
unfolding get_flip_hashes
test_waits = refl

get_flip_hashes-Accepted_example :
    Accepted (session 2) (ready_flip ∷ missing_flip ∷ missing_flip ∷ [])
get_flip_hashes-Accepted_example =
    get_flip_hashes-Accepted (session 2) 3 0 (ready_flip ∷ missing_flip ∷ missing_flip ∷ [])
      test_waits

get_flip_hashes-first_example :
    get_flip_hashes (session 2) 5 0 ≡ ok (ready_flip ∷ missing_flip ∷ missing_flip ∷ [])
get_flip_hashes-first_example =
    get_flip_hashes-first (session 2) 2 5 (ready_flip ∷ missing_flip ∷ missing_flip ∷ []) refl
      ((_, refl, refl), ((_, refl, refl), tt)) refl refl (omega arith)

too_few :
    (i : ℕ)
    → (flips : List FlipHash) × (flips_at i ≡ some flips)
      × (enough flips (allowed_at (session 1) i) ≡ false)
too_few i = (_, refl, ground arith)

get_flip_hashes-endless_example : get_flip_hashes (session 1) 1000 0 ≡ panic endless_loop
get_flip_hashes-endless_example = get_flip_hashes-endless (session 1) 1000 0 refl too_few
