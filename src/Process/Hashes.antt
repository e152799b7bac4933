-- ===== src/Process/Hashes.antt =====
-- process/verification.go: how a user gets the flips of a session.
mod Tests
pub mod Accepted
pub mod Ends
use idena_test_go.Prelude.{
  ℕ, zero, suc, ◌-◌, ◌%◌, Bool, true, false, ◌&&◌, ◌||◌, not, List, [], ◌∷◌, Option, none, some,
  Bytes, ltb, ◌==◌, if◌then◌else◌,
}
use idena_test_go.Prelude.Int.{ℤ, pos, negsuc, ◌==ℤ◌}
use idena_test_go.Prelude.Result.{
  Result, Error, no_flip, ok, panic, exited, endless_loop, reject_if, equal_words, wrong_words,
  no_flip_hashes, not_reversed, ◌>>=◌, ◌>>◌,
}
use idena_test_go.Process.Flips.{Flip, assert_flip}
use idena_test_go.Process.Answers.{FlipHash}

-- `api.FlipWordsResponse`
pub record FlipWords : Type 0 where
  pub first : ℤ
  pub second : ℤ

-- `uint32(z)`
abbrev pub to_uint32 : ℤ → ℕ
to_uint32 (pos n) = n % 0x1_0000_0000
to_uint32 (negsuc n) = 0xffff_ffff - n % 0x1_0000_0000

-- `process.handleError(err, ...)`, which does nothing where the error is nil.
abbrev pub exit_if : Bool → Error → Result (Unit {0})
exit_if true e = panic (exited e)
exit_if false e = ok tt

-- `assertFlipWords`, where `words_by_cid` is what users of this process submitted.
unfoldable pub assert_flip_words : (Bytes → Option (ℕ × ℕ)) → Bytes → FlipWords → Result (Unit {0})
assert_flip_words words_by_cid hash words =
    exit_if (words.first ==ℤ words.second) equal_words >> elim (words_by_cid hash) [
      | none ↦ ok tt
      | some (first, second) ↦
          exit_if (not (to_uint32 words.first == first) || not (to_uint32 words.second == second))
            wrong_words
    ]

-- The loop of `checkFlipHashes`: how many flips are not ready or have no words, where the words are
-- looked up.
unfoldable pub count_not_ready :
    (Bytes → Option (ℕ × ℕ))
    → (looks_up : Bool) → (words : Bytes → Option FlipWords) → List FlipHash
    → Result ℕ
unfolding assert_flip_words
count_not_ready words_by_cid looks_up words [] = ok 0
count_not_ready words_by_cid looks_up words (flip ∷ flips) =
    let rest = count_not_ready words_by_cid looks_up words flips in
    if not flip.ready
    then rest >>= (λ n. ok (suc n))
    else if looks_up
    then elim (words flip.hash) [
      | none ↦ rest >>= (λ n. ok (suc n))
      | some found ↦ assert_flip_words words_by_cid flip.hash found >> rest
    ]
    else rest

-- The error of `checkFlipHashes`, if it has one.
pub data Checked : Type 0 where
  passed empty_hashes : Checked
  -- wraps `notReadyFlipsAllowableCount`
  allowable : ℕ → Checked
  too_many : ℕ → Checked

abbrev pub verdict : (count allowed : ℕ) → Checked
verdict zero allowed = passed
verdict (suc n) allowed = if ltb allowed (suc n) then too_many (suc n) else allowable (suc n)

unfoldable pub check_flip_hashes :
    (Bytes → Option (ℕ × ℕ))
    → (looks_up : Bool) → (words : Bytes → Option FlipWords) → List FlipHash
    → (allowed : ℕ) → Result Checked
unfolding count_not_ready
check_flip_hashes words_by_cid looks_up words [] allowed = ok empty_hashes
check_flip_hashes words_by_cid looks_up words (flip ∷ flips) allowed =
    count_not_ready words_by_cid looks_up words (flip ∷ flips)
    >>= (λ count. ok (verdict count allowed))

-- `err == nil || errors.Cause(err) == notReadyFlipsAllowableCount`
abbrev pub is_acceptable : Checked → Bool
is_acceptable passed = true
is_acceptable empty_hashes = false
is_acceptable (allowable n) = true
is_acceptable (too_many n) = false

abbrev pub is_passed : Checked → Bool
is_passed passed = true
is_passed _ = false

-- What a user meets while it waits for the flips of a session: by the number of the attempt, the flips
-- that the node gives, if it gives no error; whether the deadline is over then; and the words that the
-- node gives to the check after the deadline (true) and to the other one.
pub record Session : Type 0 where
  pub load : ℕ → Option (List FlipHash)
  pub late : ℕ → Bool
  pub words : ℕ → Bool → Bytes → Option FlipWords
  pub words_by_cid : Bytes → Option (ℕ × ℕ)
  -- whether it is the long session of a test other than the first
  pub looks_up : Bool
  pub allowed : ℕ

-- `isShort` and `getCurrentTestIndex()` of a session.
abbrev pub looks_up_words : Bool → ℕ → Bool
looks_up_words is_short test_index = not is_short && ltb 0 test_index

-- The check that accepts no missing flip, and otherwise the rest of the loop.
unfoldable pub strict_check :
    Session → ℕ → List FlipHash → (rest : Result (List FlipHash)) → Result (List FlipHash)
unfolding check_flip_hashes
strict_check s at flips rest =
    check_flip_hashes s.words_by_cid s.looks_up (s.words at false) flips 0
    >>= (λ c. if is_passed c then ok flips else rest)

-- The checks of an attempt. After the deadline the code calls `handleError` with the error of
-- `loadFunc`, which is nil there, so the loop goes on.
unfoldable pub after_load :
    Session → ℕ → (rest : Result (List FlipHash)) → Option (List FlipHash) → Result (List FlipHash)
unfolding check_flip_hashes strict_check
after_load s at rest none = panic (exited no_flip_hashes)
after_load s at rest (some flips) =
    let strict = strict_check s at flips rest in
    if s.late at
    then check_flip_hashes s.words_by_cid s.looks_up (s.words at true) flips s.allowed
      >>= (λ c. if is_acceptable c then ok flips else strict)
    else strict

-- The loop of `getFlipHashes` from its `at`-th attempt on, on fuel.
unfoldable pub get_flip_hashes : Session → (fuel at : ℕ) → Result (List FlipHash)
unfolding after_load
get_flip_hashes s zero at = panic endless_loop
get_flip_hashes s (suc fuel) at = after_load s at (get_flip_hashes s fuel (suc at)) (s.load at)

-- `getFlips`, where `get_flip` is the node's answer, or none for its error: a flip for each hash, empty
-- where it is not ready.
unfoldable pub get_flips :
    (from_hex : Bytes → Bytes) (get_flip : Bytes → Option Flip) → List FlipHash → Result (List Flip)
get_flips from_hex get_flip [] = ok []
get_flips from_hex get_flip (flip ∷ flips) =
    let rest = get_flips from_hex get_flip flips in
    if not flip.ready
    then rest >>= (λ got. ok (record { private_hex = []; public_hex = [] } ∷ got))
    else elim (get_flip flip.hash) [
      | none ↦ panic (exited no_flip)
      | some found ↦
          exit_if (not (assert_flip from_hex found)) not_reversed
          >> (rest >>= (λ got. ok (found ∷ got)))
    ]
