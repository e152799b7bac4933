-- ===== src/User/Tests.antt =====
-- Runs of users.
use idena_test_go.Prelude.{
  ℕ, ◌*◌, ◌<◌, ◌≤◌, ◌≡◌, ◌≢◌, refl, ◌⊎◌, true, false, List, [], ◌∷◌, ◌++◌, Option, none, some,
  Bytes, codes, All, arith, ◌==◌, if◌then◌else◌,
}
use idena_test_go.Prelude.Int.{pos, sub_ℕ}
use idena_test_go.Prelude.Result.{ok, panic, exited, no_flip, index_out_of_range}
use idena_test_go.Process.Answers.{FlipHash}
use idena_test_go.Process.Hashes.{get_flips}
use idena_test_go.Client.{FlipAnswer}
use idena_test_go.User.{TestContext, RawFlip, cached}
use idena_test_go.User.Cache.{Source, get_short_flip_hashes}
use idena_test_go.User.Cache.Flips.{StillGot, later_flip, get_short_flip_hashes-kept}
use idena_test_go.User.Flips.{Identity, flips_info}
use idena_test_go.User.Flips.Count.{flips_info_lem}
use idena_test_go.User.Keys.{Signer, SharedNode, derived_key, get_short_answers_salt}
use idena_test_go.User.Sending.{
  Outside, answers_to, short_answers, long_answers, submit_flip, send_flip,
  submit_open_short_answers,
}
use idena_test_go.User.Sending.Commit.{
  Act, sends_package, sends_key, opens_answers, opening, acts, acts_lem,
}
use idena_test_go.User.Prepared.{flips_of, find_answer, prepare_answers}
use idena_test_go.User.Prepared.Reports.{reported, asked, prepare_answers-reports}

abbrev new_context : TestContext
new_context = record {
  epoch = 2;
  short_answers_bytes = [];
  short_flip_hashes = [];
  long_flip_hashes = [];
  words_proof = [];
  public_encryption_key = none;
  private_encryption_key = none;
  test_start_time = pos 0;
  required_flips = 0;
  made_flips = 0;
  flips_by_hash = none;
}

abbrev flip_hash : ℕ → FlipHash
flip_hash n = record { hash = n ∷ []; ready = false; extra = false }

abbrev raw_of : Bytes → Option RawFlip
raw_of [] = none
raw_of (n ∷ rest) =
    if n == 1 then some (record { public_part = 7 ∷ []; private_part = 8 ∷ [] }) else none

-- A node that has the flip of the hash 1 and not that of the hash 2, and one that has none.
abbrev full_source : Source
full_source = record {
  get_flip = λ hash. none;
  get_flip_raw = raw_of;
  get_flip_keys = λ address hash. some (record { public_key = 1 ∷ []; private_key = 2 ∷ [] });
  get_short_flip_hashes = λ address. some (flip_hash 1 ∷ flip_hash 2 ∷ []);
  get_long_flip_hashes = λ address. none;
  to_ecdsa = λ key. some key;
  decrypt = λ key message. some message;
}

abbrev empty_source : Source
empty_source = record full_source { get_flip_raw = λ hash. none }

abbrev got_context : TestContext
got_context = record new_context {
  flips_by_hash =
      some ((1 ∷ [], record { private_hex = codes "0x08"; public_hex = codes "0x07" }) ∷ []);
}

abbrev got_hashes : List FlipHash
got_hashes = record (flip_hash 1) { ready = true } ∷ flip_hash 2 ∷ []

get_short_flip_hashes-kept_example :
    All (StillGot full_source empty_source [] [] new_context got_context) got_hashes
    × (get_flips (λ hex. hex) (later_flip empty_source [] [] got_context) got_hashes
        ≢ panic (exited no_flip))
unfolding get_short_flip_hashes cached
get_short_flip_hashes-kept_example =
    get_short_flip_hashes-kept full_source empty_source (λ hex. hex) [] [] new_context got_context
      got_hashes refl

abbrev identity : Identity
identity = record {
  required_flips = 3;
  available_flips = 5;
  flips = [] ∷ [];
  flip_key_word_pairs = [];
}

test_flips_info : flips_info 8 identity (1 ∷ 2 ∷ 4 ∷ []) (ok []) ≡ ok (pos 4, [])
unfolding flips_info
test_flips_info = refl

flips_info_lem_example :
    ((2 ≤ 3)
      × (count : ℕ) × (3 ≤ count)
      × (count ≤ 5)
      × (flips_info 8 identity (1 ∷ 2 ∷ 4 ∷ []) (ok []) ≡ ok (sub_ℕ count 1, [])))
    ⊎ ((3 < 2) × (flips_info 8 identity (1 ∷ 2 ∷ 4 ∷ []) (ok []) ≡ panic index_out_of_range))
flips_info_lem_example = flips_info_lem 8 identity (1 ∷ 2 ∷ 4 ∷ []) [] (omega arith) (omega arith)

-- Three flips, all of which the user reports: one report is below the limit.
abbrev report : ℕ → FlipAnswer
report n = record { answer = 1; hash = n ∷ []; grade = 1 }

abbrev reports : List FlipAnswer
reports = report 1 ∷ report 2 ∷ report 3 ∷ []

abbrev flips : List Bytes
flips = (1 ∷ []) ∷ (2 ∷ []) ∷ (3 ∷ []) ∷ []

test_reports : reported (prepare_answers (λ text. some text) reports flips false) ≡ 1
unfolding prepare_answers
test_reports = refl

prepare_answers-reports_example :
    let sent = reported (prepare_answers (λ text. some text) reports flips false) in
    let wanted = asked (find_answer (λ text. some text) reports) flips in
    ((sent ≡ 0) ⊎ (100 * sent < 34 * 3))
    × (sent ≤ wanted)
    × ((sent ≡ wanted) ⊎ (34 * 3 ≤ 100 * wanted))
prepare_answers-reports_example = prepare_answers-reports (λ text. some text) reports flips

-- A signer whose keys and hashes show what they are made from.
abbrev signer : Signer
signer = record {
  address = codes "0xaa";
  pub_key = [];
  hash = λ message. 100 ∷ message;
  sha3 = λ message. message;
  sign = λ message. message;
  key_from_seed = λ seed. seed;
  hex_decode = λ text. some text;
  tx_from_bytes = λ bytes. some bytes;
  sign_tx = λ tx. some tx;
  tx_to_bytes = λ tx. some tx;
}

abbrev node : SharedNode ℕ
node = record {
  no_amount = 0;
  get_raw_tx = λ from args. some args.payload;
  send_raw_tx = λ tx. some tx;
}

abbrev outside : Outside
outside = record {
  parse_cid = λ text. some text;
  answers_bytes = λ count marks. count ∷ [];
  short_answer_attachment = λ answers rnd. answers;
  long_answer_attachment = λ answers proof salt key. answers ++ (proof ++ (salt ++ key));
  flip_attachment = λ cid pair. cid;
  vrf_evaluate = λ seed. (seed, seed);
  hash_from_proof = λ proof. some proof;
  encrypt = λ key message. some (key ++ message);
  ipfs_flip = λ public_part private_part pub_key. public_part;
  sign_flip_key = λ epoch key. some key;
  sign_package = λ epoch sent. some sent;
  encrypt_package = λ public_key private_key candidates. public_key;
  words_seed = some (9 ∷ []);
  ipfs_data_cid = λ text. some text;
  submit_raw_flip =
      λ tx public_flip private_flip. record { hash = public_flip; tx_hash = tx; error = none };
  candidates = λ address. some [];
  accepts_package = λ args. true;
  accepts_key = λ args. true;
}

abbrev day : List Act
day = sends_package ∷ sends_key ∷ opens_answers ∷ []

acts_lem_example :
    let (after, hashed) = short_answers outside signer node reports new_context in
    let end = acts outside signer node day after in
    let (last, long) = long_answers outside signer node reports end in
    let salt = get_short_answers_salt signer 2 in
    let bytes =
      answers_to outside signer node reports
        (flips_of outside.parse_cid new_context.short_flip_hashes)
        true in
    (hashed.payload ≡ signer.hash (bytes ++ salt))
    × ((submit_open_short_answers outside signer node end).1 ≡ opening outside signer node bytes)
    × (long.payload
        ≡ outside.long_answer_attachment
            (answers_to outside signer node reports
              (flips_of outside.parse_cid end.long_flip_hashes)
              false)
            last.words_proof
            salt
            (derived_key signer true 2))
    × ((submit_flip outside signer node (8 ∷ []) (7 ∷ []) 0 end).1
        ≡ send_flip outside signer node
            (derived_key signer true 2)
            (derived_key signer false 2)
            (8 ∷ [])
            (7 ∷ [])
            0)
acts_lem_example =
    acts_lem outside signer node day reports reports (8 ∷ []) (7 ∷ []) 0 new_context refl refl
