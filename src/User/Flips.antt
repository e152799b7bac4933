-- ===== src/User/Flips.antt =====
-- user/user.go and user/user_shared.go: how many flips a user has to make, and the words for them.
pub mod Count
use idena_test_go.Prelude.{
  ℕ, zero, suc, ◌+◌, ◌-◌, ◌%◌, ◌^◌, List, [], ◌∷◌, Option, none, some, Bytes, length, ◌==◌,
  if◌then◌else◌,
}
use idena_test_go.Prelude.Int.{ℤ, sub_ℕ}
use idena_test_go.Prelude.Result.{Result, ok, err, panic, unable, or_error, index, ◌>>=◌}
use idena_test_go.User.{TestContext, FlipWord, FlipWords}

-- What a user reads of `api.Identity`. The two numbers are of an unsigned type of idena-go, whose number of
-- bits is a parameter below.
pub record Identity : Type 0 where
  pub required_flips : ℕ
  pub available_flips : ℕ
  pub flips : List Bytes
  pub flip_key_word_pairs : List (ℕ × ℕ)

-- `identity.AvailableFlips - identity.RequiredFlips`, which wraps around.
abbrev pub additional_flips : (bits : ℕ) → Identity → ℕ
additional_flips bits identity =
    (identity.available_flips + (2 ^ bits - identity.required_flips)) % 2 ^ bits

-- `flipsCount++`, for an even byte of the address.
abbrev pub count_byte : (bits : ℕ) → (byte flips_count : ℕ) → ℕ
count_byte bits byte flips_count =
    if byte % 2 == 0 then (flips_count + 1) % 2 ^ bits else flips_count

-- The loop over the bytes of the address from its end, with `n` rounds left from the `i`-th on.
unfoldable pub add_flips : (bits : ℕ) → Bytes → (n i flips_count : ℕ) → Result ℕ
add_flips bits address zero i flips_count = ok flips_count
add_flips bits address (suc n) i flips_count =
    index address (sub_ℕ (length address) (suc i))
    >>= (λ byte. add_flips bits address n (suc i) (count_byte bits byte flips_count))

unfoldable pub flips_count : (bits : ℕ) → Identity → Bytes → Result ℕ
unfolding add_flips
flips_count bits identity address =
    add_flips bits address (additional_flips bits identity) 0 identity.required_flips

-- A word, by the node's answer, which is its name and description.
abbrev pub load_word : (ℕ → Option (Bytes × Bytes)) → ℕ → Result FlipWord
load_word key_word id = do
  (name, description) ← or_error (unable "unable to get keyword") (key_word id)
  ok (record { id = id; name = name; description = description })

-- `loadKeyWords`
unfoldable pub load_key_words :
    (ℕ → Option (Bytes × Bytes)) → List (ℕ × ℕ) → Result (List FlipWords)
load_key_words key_word [] = ok []
load_key_words key_word ((first, second) ∷ pairs) = do
  one ← load_word key_word first
  two ← load_word key_word second
  rest ← load_key_words key_word pairs
  ok ((one, two) ∷ rest)

abbrev pub with_words : Identity → Result (List FlipWords) → ℕ → Result (ℤ × List FlipWords)
with_words identity words count =
    words >>= (λ found. ok (sub_ℕ count (length identity.flips), found))

-- The end of both `GetRequiredFlipsInfo`: the flips left to make, and the words.
unfoldable pub flips_info :
    (bits : ℕ) → Identity → Bytes → Result (List FlipWords) → Result (ℤ × List FlipWords)
unfolding flips_count
flips_info bits identity address words =
    flips_count bits identity address >>= with_words identity words

-- `GetTestContext().RequiredFlips` is set before anything else can fail.
abbrev pub info_after :
    TestContext
    → (Identity → Result (ℤ × List FlipWords))
    → Option Identity
    → TestContext × Result (ℤ × List FlipWords)
info_after context info none = (context, err (unable "unable to get identity"))
info_after context info (some identity) =
    (record context { required_flips = identity.required_flips }, info identity)

-- `GetRequiredFlipsInfo` of a user with its own node, which has the words of the identity.
unfoldable pub own_flips_info :
    (bits : ℕ)
    → (key_word : ℕ → Option (Bytes × Bytes)) → (address : Bytes) → Option Identity
    → TestContext
    → TestContext × Result (ℤ × List FlipWords)
unfolding flips_info load_key_words
own_flips_info bits key_word address identity context =
    info_after context
      (λ found. flips_info bits found address (load_key_words key_word found.flip_key_word_pairs))
      identity

-- The pairs of `WordPairs`: its error is overwritten by that of `loadKeyWords`, which gets no pairs then.
abbrev pub pairs_or_none : Option (List (ℕ × ℕ)) → List (ℕ × ℕ)
pairs_or_none none = []
pairs_or_none (some pairs) = pairs

-- The words of a user of a shared node, by the seed of the node, the hash that the user's key makes of it
-- (`vrfEvaluate`) and the pairs that the node has for the hash.
unfoldable pub shared_words :
    (key_word : ℕ → Option (Bytes × Bytes))
    → (words_seed : Option Bytes) → (vrf_evaluate : Bytes → Bytes)
    → (word_pairs : Bytes → Option (List (ℕ × ℕ))) → Result (List FlipWords)
unfolding load_key_words
shared_words key_word words_seed vrf_evaluate word_pairs = do
  seed ← or_error (unable "unable to get words seed") words_seed
  load_key_words key_word (pairs_or_none (word_pairs (vrf_evaluate seed)))

-- `GetRequiredFlipsInfo` of a user of a shared node
unfoldable pub shared_flips_info :
    (bits : ℕ)
    → (words : Result (List FlipWords)) → (address : Bytes) → Option Identity
    → TestContext
    → TestContext × Result (ℤ × List FlipWords)
unfolding flips_info
shared_flips_info bits words address identity context =
    info_after context (λ found. flips_info bits found address words) identity
