-- ===== src/Process/Submission.antt =====
-- process/verification.go: how a user submits its flips.
mod Tests
pub mod Mined
use idena_test_go.Prelude.{
  ℕ, zero, suc, ◌+◌, ◌%◌, Bool, true, false, ◌&&◌, ◌||◌, not, List, [], ◌∷◌, ◌++◌, Option, none,
  some, Bytes, length, ltb, ◌==◌, if◌then◌else◌,
}
use idena_test_go.Prelude.Int.{ℤ, pos, negsuc, pos_part, ◌==ℤ◌}
use idena_test_go.Prelude.Result.{Result, ok, err, panic, exited, endless_loop, index, ◌>>=◌}
use idena_test_go.Scenario.Model.{UserCeremony}
use idena_test_go.Process.Flips.{Flip, same_text}

-- `[2]uint32`, the two words of a pair.
abbrev pub WordPair : Type 0
WordPair = ℕ × ℕ

abbrev pub submits : Option UserCeremony → Option ℤ
submits none = none
submits (some ceremony) = ceremony.submit_flips

-- The required flips, which are 1 where the god user has none in the first test.
abbrev pub flips_or_first : (is_god_first : Bool) → ℤ → ℤ
flips_or_first is_god_first required =
    if is_god_first && required ==ℤ pos 0 then pos 1 else required

-- The count of `getFlipsInfoToSubmit`: the required one, unless the scenario gives another.
unfoldable pub flips_to_submit :
    (test_index : ℕ) (is_god : Bool) (required : ℤ) → Option UserCeremony → ℤ
flips_to_submit test_index is_god required ceremony = elim (submits ceremony) [
  | none ↦ flips_or_first (test_index == 0 && is_god) required
  | some n ↦ n
]

-- `prevSubmittedFlips.Contains(flipCid)`
abbrev pub contains_cid : List Bytes → Bytes → Bool
contains_cid [] cid = false
contains_cid (c ∷ cids) cid = same_text c cid || contains_cid cids cid

-- The first flip of the new ones that is not among the earlier ones.
unfoldable pub new_cid : (before now : List Bytes) → Option Bytes
unfolding same_text
new_cid before [] = none
new_cid before (cid ∷ now) =
    let rest = new_cid before now in if contains_cid before cid then rest else some cid

-- The flip that an attempt finds: where there is one flip more than before, the first new one.
unfoldable pub found_cid : (before now : List Bytes) → Option Bytes
unfolding new_cid
found_cid before now = if length now == length before + 1 then new_cid before now else none

abbrev pub or_rest : (rest : Result Bytes) → Option Bytes → Result Bytes
or_rest rest none = rest
or_rest rest (some cid) = ok cid

-- The loop of `submitFlip` from its `at`-th attempt on, on fuel.
unfoldable pub wait_for_flip :
    (before : List Bytes) (flips_at : ℕ → List Bytes) (fuel at : ℕ) → Result Bytes
unfolding found_cid
wait_for_flip before flips_at zero at = panic endless_loop
wait_for_flip before flips_at (suc fuel) at =
    or_rest (wait_for_flip before flips_at fuel (suc at)) (found_cid before (flips_at at))

-- What a user meets while it submits its flips, by the number of the flip: what is generated, what the
-- node answers (a hash and that of a transaction, none for an error), and the flips of the identity
-- before it and at each attempt after it.
pub record Submitter : Type 0 where
  pub fast_newbie : Bool
  pub validation_only : Bool
  pub test_index : ℕ
  pub words : List WordPair
  pub generated : ℕ → Result Flip
  pub answer : ℕ → Flip → (pair : ℕ) → Option (Bytes × Bytes)
  pub flips_before : ℕ → List Bytes
  pub flips_at : ℕ → ℕ → List Bytes
  pub fuel : ℕ

-- The response where there is an error is the zero value.
abbrev pub response_or_empty : Option (Bytes × Bytes) → Bytes × Bytes
response_or_empty none = ([], [])
response_or_empty (some response) = response

-- `submitFlip`
unfoldable pub submit_flip : Submitter → (i : ℕ) → Flip → (pair : ℕ) → Result (Bytes × Bytes)
unfolding wait_for_flip
submit_flip s i flip pair =
    let (hash, tx_hash) = response_or_empty (s.answer i flip pair) in
    if s.validation_only
    then ok (hash, tx_hash)
    else wait_for_flip (s.flips_before i) (s.flips_at i) s.fuel 0 >>= (λ cid. ok (cid, tx_hash))

-- `submittedFlip`
pub record SubmittedFlip : Type 0 where
  pub hash : Bytes
  pub word_pair_idx : ℕ
  pub tx_hash : Bytes

-- `process.es.wordsByCid`, the last write first.
abbrev pub WordsByCid : Type 0
WordsByCid = List (Bytes × WordPair)

-- `process.es.wordsByCid.Store` after the first test, which reads the pair of the words.
abbrev pub store_words : Submitter → Bytes → (pair : ℕ) → WordsByCid → Result WordsByCid
store_words s cid pair stored =
    if ltb 0 s.test_index
    then index s.words (pos pair) >>= (λ words. ok ((cid, words) ∷ stored))
    else ok stored

-- In the first test flips are submitted without waiting, if there are several of them.
abbrev pub without_waiting : Submitter → (count : ℤ) → Bool
without_waiting s count =
    not s.fast_newbie && (not s.validation_only && (s.test_index == 0 && ltb 1 (pos_part count)))

-- `if err != nil { process.handleError(err, ...) }`
abbrev pub or_exit : {A : Type 0} → Result A → Result A
or_exit (ok a) = ok a
or_exit (err e) = panic (exited e)
or_exit (panic x) = panic x

-- The loop of `submitFlips`, with `n` flips left, of which the first is the `i`-th.
unfoldable pub submit_loop :
    Submitter → (count : ℤ) → (n i : ℕ) → WordsByCid → Result (List SubmittedFlip × WordsByCid)
unfolding submit_flip
submit_loop s count zero i stored = ok ([], stored)
submit_loop s count (suc n) i stored = or_exit (s.generated i) >>= λ flip.
    if without_waiting s count
    then (let rest = submit_loop s count n (suc i) stored in
        elim (s.answer i flip 0) [
          | none ↦ rest
          | some response ↦ rest >>= (λ (flips, stored').
              ok (record { hash = []; word_pair_idx = 0; tx_hash = [] } ∷ flips, stored'))
        ])
    else (do
      (cid, tx_hash) ← submit_flip s i flip (i % 256)
      now ← store_words s cid (i % 256) stored
      (flips, stored') ← submit_loop s count n (suc i) now
      ok (record { hash = cid; word_pair_idx = i % 256; tx_hash = tx_hash } ∷ flips, stored'))

-- `submitFlips`, for the count of `getFlipsInfoToSubmit`. The channel that bounds how many users submit at
-- a time is left out.
unfoldable pub submit_flips : Submitter → ℤ → WordsByCid → Result (List SubmittedFlip × WordsByCid)
unfolding submit_loop
submit_flips s count stored = submit_loop s count (pos_part count) 0 stored
