-- ===== src/Process/Submission/Tests.antt =====
-- Runs of the submission of flips.
use idena_test_go.Prelude.{
  ℕ, ◌≡◌, refl, true, false, List, [], ◌∷◌, none, some, Bytes, codes, ltb, if◌then◌else◌, arith,
}
use idena_test_go.Prelude.Int.{pos}
use idena_test_go.Prelude.Result.{ok, panic, index_out_of_range}
use idena_test_go.Process.Flips.{Flip, same_text}
use idena_test_go.Process.Submission.{
  contains_cid, WordPair, Submitter, flips_to_submit, submit_flip, submit_flips,
}
use idena_test_go.Process.Submission.Mined.{submit_flip-mined}

abbrev flip : Flip
flip = record { private_hex = codes "0x01"; public_hex = codes "0x01" }

abbrev old_flips : List Bytes
old_flips = codes "a" ∷ codes "b" ∷ []

-- A flip is mined at the third attempt; the pairs of words are given.
abbrev submitter : ℕ → List WordPair → Submitter
submitter test_index words = record {
  fast_newbie = false;
  validation_only = false;
  test_index = test_index;
  words = words;
  generated = λ i. ok flip;
  answer = λ i f pair. some (codes "h", codes "tx");
  flips_before = λ i. old_flips;
  flips_at = λ i n. if ltb n 2 then old_flips else codes "a" ∷ codes "c" ∷ codes "b" ∷ [];
  fuel = 10;
}

test_god_user : flips_to_submit 0 true (pos 0) none ≡ pos 1
unfolding flips_to_submit
test_god_user = refl

test_submit_flips :
    submit_flips (submitter 1 ((7, 8) ∷ [])) (pos 1) []
    ≡ ok (
      record { hash = codes "c"; word_pair_idx = 0; tx_hash = codes "tx" } ∷ [],
      (codes "c", (7, 8)) ∷ [],
    )
unfolding submit_flips
test_submit_flips = refl

-- In the first test, several flips are submitted without waiting.
test_first_test :
    submit_flips (submitter 0 []) (pos 2) []
    ≡ ok (
      record { hash = []; word_pair_idx = 0; tx_hash = [] }
          ∷ record { hash = []; word_pair_idx = 0; tx_hash = [] }
          ∷ [],
      [],
    )
unfolding submit_flips
test_first_test = refl

-- More flips than pairs of words, as a scenario can ask for, are a panic after the first test.
test_too_few_words : submit_flips (submitter 1 ((7, 8) ∷ [])) (pos 2) [] ≡ panic index_out_of_range
unfolding submit_flips
test_too_few_words = refl

not_there : contains_cid old_flips (codes "c") ≡ false
unfolding same_text
not_there = refl

submit_flip-mined_example : submit_flip (submitter 1 []) 0 flip 0 ≡ ok (codes "c", codes "tx")
submit_flip-mined_example =
    submit_flip-mined (submitter 1 []) 0 flip 0 2 (codes "a" ∷ []) (codes "b" ∷ []) (codes "c") refl
      refl (refl, (refl, tt)) refl not_there (omega arith)
