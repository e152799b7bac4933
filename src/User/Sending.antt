-- ===== src/User/Sending.antt =====
-- user/user_shared.go: what a user of a shared node sends in a test: its flips, its answers and its keys.
pub mod Agrees
pub mod Commit
use idena_test_go.Prelude.{
  ℕ, zero, suc, ◌+◌, ◌*◌, ◌^◌, Bool, true, false, List, [], ◌∷◌, ◌++◌, Option, none, some, Bytes,
  String, length, ◌==◌, if◌then◌else◌,
}
use idena_test_go.Prelude.Result.{
  Result, Error, ok, err, panic, unable, client_error, or_error, with_message, ◌>>=◌,
}
use idena_test_go.Process.Flips.{to_hex}
use idena_test_go.Client.{FlipAnswer}
use idena_test_go.User.{TestContext}
use idena_test_go.User.Prepared.{Mark, prepare_answers, flips_of}
use idena_test_go.User.Keys.{
  Signer, SharedNode, TxArgs, submit_flip_tx, submit_answers_hash_tx, submit_short_answers_tx,
  submit_long_answers_tx, plain_tx, generate_flip_encryption_key, get_short_answers_salt,
  build_signed_transaction_raw, send_transaction,
}

-- `client.FlipSubmitResponse`, where the process looks at both fields also when there is an error.
pub record FlipResponse : Type 0 where
  pub hash : Bytes
  pub tx_hash : Bytes
  pub error : Option Error

-- `api.EncryptionKeyArgs`
pub record EncryptionKeyArgs : Type 0 where
  pub epoch : ℕ
  pub contents : Bytes
  pub signature : Bytes

-- The formats and the cryptography of idena-go, and what the node answers to the other calls.
pub record Outside : Type 0 where
  pub parse_cid : Bytes → Option Bytes
  pub answers_bytes : (flips_count : ℕ) → List Mark → Bytes
  pub short_answer_attachment : (answers : Bytes) → (rnd : ℕ) → Bytes
  pub long_answer_attachment : (answers proof salt key : Bytes) → Bytes
  pub flip_attachment : (cid : Bytes) → (pair : ℕ) → Bytes
  pub vrf_evaluate : Bytes → Bytes × Bytes
  pub hash_from_proof : Bytes → Option Bytes
  pub encrypt : (key message : Bytes) → Option Bytes
  pub ipfs_flip : (public_part private_part pub_key : Bytes) → Bytes
  pub sign_flip_key : (epoch : ℕ) → (key : Bytes) → Option Bytes
  pub sign_package : (epoch : ℕ) → (contents : Bytes) → Option Bytes
  pub encrypt_package : (public_key private_key : Bytes) → List Bytes → Bytes
  pub words_seed : Option Bytes
  pub ipfs_data_cid : Bytes → Option Bytes
  pub submit_raw_flip : (tx public_hex private_hex : Bytes) → FlipResponse
  pub candidates : (address : Bytes) → Option (List Bytes)
  pub accepts_package : EncryptionKeyArgs → Bool
  pub accepts_key : EncryptionKeyArgs → Bool

-- The number that bytes spell, the least significant first: `binary.LittleEndian.Uint64` reads eight.
abbrev pub little_endian : ℕ → Bytes → ℕ
little_endian zero bytes = 0
little_endian (suc n) [] = 0
little_endian (suc n) (b ∷ bytes) = b + 256 * little_endian n bytes

unfoldable pub get_words_rnd : Bytes → ℕ
get_words_rnd hash = little_endian 8 hash

module _ {F : Type 0} (o : Outside) (signer : Signer) (node : SharedNode F) where
  -- The bytes of the answers to the flips of a session.
  unfoldable pub answers_to : List FlipAnswer → List Bytes → (is_short : Bool) → Bytes
  unfolding prepare_answers
  answers_to answers flips is_short =
      o.answers_bytes (length flips) (prepare_answers o.parse_cid answers flips is_short)

  -- What `SubmitShortAnswers` keeps, and the transaction that it sends: the hash of the answers and a salt.
  unfoldable pub short_answers : List FlipAnswer → TestContext → TestContext × TxArgs F
  unfolding answers_to get_short_answers_salt
  short_answers answers context =
      let bytes = answers_to answers (flips_of o.parse_cid context.short_flip_hashes) true in
      let salt = get_short_answers_salt signer context.epoch in
      (
        record context { short_answers_bytes = bytes },
        plain_tx node submit_answers_hash_tx none (signer.hash (bytes ++ salt)),
      )

  -- `SubmitShortAnswers`
  unfoldable pub submit_short_answers : List FlipAnswer → TestContext → TestContext × Result Bytes
  unfolding short_answers send_transaction
  submit_short_answers answers context =
      let (after, args) = short_answers answers context in
      (after, send_transaction signer node args)

  -- The transaction of `SubmitOpenShortAnswers`, which opens the answers, by the proof.
  unfoldable pub open_answers : TestContext → (proof : Bytes) → Result (TxArgs F)
  unfolding get_words_rnd
  open_answers context proof =
      or_error (unable "cannot get hash from proof") (o.hash_from_proof proof) >>= (λ h. ok (
        plain_tx node submit_short_answers_tx none
          (o.short_answer_attachment context.short_answers_bytes (get_words_rnd h))))

  abbrev pub open_with_seed : TestContext → Option Bytes → TestContext × Result (TxArgs F)
  open_with_seed context none = (context, err (unable "unable to get words seed"))
  open_with_seed context (some seed) =
      let proof = (o.vrf_evaluate seed).1 in
      (record context { words_proof = proof }, open_answers context proof)

  -- `SubmitOpenShortAnswers`
  unfoldable pub submit_open_short_answers : TestContext → TestContext × Result Bytes
  unfolding open_answers send_transaction
  submit_open_short_answers context =
      let (after, args) = open_with_seed context o.words_seed in
      (after, args >>= send_transaction signer node)

  -- What `SubmitLongAnswers` keeps, and the transaction that it sends, with the salt and the public key.
  unfoldable pub long_answers : List FlipAnswer → TestContext → TestContext × TxArgs F
  unfolding answers_to get_short_answers_salt generate_flip_encryption_key
  long_answers answers context =
      let bytes = answers_to answers (flips_of o.parse_cid context.long_flip_hashes) false in
      let salt = get_short_answers_salt signer context.epoch in
      let (after, key) = generate_flip_encryption_key signer true context in
      (
        after,
        plain_tx node submit_long_answers_tx none
            (o.long_answer_attachment bytes after.words_proof salt key),
      )

  -- `SubmitLongAnswers`
  unfoldable pub submit_long_answers : List FlipAnswer → TestContext → TestContext × Result Bytes
  unfolding long_answers send_transaction
  submit_long_answers answers context =
      let (after, args) = long_answers answers context in (after, send_transaction signer node args)

  abbrev pub hash_or : (cid : Bytes) → FlipResponse → FlipResponse
  hash_or cid res = if length res.hash == 0 then record res { hash = cid } else res

  -- `SubmitFlip` behind the keys: what the node answers, or the error before it.
  unfoldable pub send_flip :
      (public_key private_key private_hex public_hex : Bytes) → (pair : ℕ) → Result FlipResponse
  unfolding build_signed_transaction_raw to_hex
  send_flip public_key private_key private_hex public_hex pair = do
    public_part ← or_error (unable "unable to decode public part") (signer.hex_decode public_hex)
    public_flip ←
        or_error (unable "unable to encrypt public part") (o.encrypt public_key public_part)
    private_part ← or_error (unable "unable to decode private part") (signer.hex_decode private_hex)
    private_flip ←
        or_error (unable "unable to encrypt private part") (o.encrypt private_key private_part)
    text ←
        or_error (unable "unable to get flip cid")
          (o.ipfs_data_cid (to_hex (o.ipfs_flip public_flip private_flip signer.pub_key)))
    cid ← or_error (unable "unable to parse flip cid") (o.parse_cid text)
    tx ← with_message (unable "unable to build flip tx") (
        build_signed_transaction_raw signer node
          (plain_tx node submit_flip_tx none (o.flip_attachment cid pair)))
    ok (hash_or text (o.submit_raw_flip tx public_flip private_flip))

  -- `err == nil`, of an answer of the node.
  abbrev pub made_flip : Result FlipResponse → ℕ
  made_flip (ok res) = elim res.error [ none ↦ 1 | some e ↦ 0 ]
  made_flip _ = 0

  -- `SubmitFlip`, which counts the flip if there is no error.
  unfoldable pub submit_flip :
      (private_hex public_hex : Bytes)
      → (pair : ℕ) → TestContext
      → TestContext × Result FlipResponse
  unfolding send_flip generate_flip_encryption_key
  submit_flip private_hex public_hex pair context =
      let (context', public_key) = generate_flip_encryption_key signer true context in
      let (after, private_key) = generate_flip_encryption_key signer false context' in
      let res = send_flip public_key private_key private_hex public_hex pair in
      (record after { made_flips = after.made_flips + made_flip res }, res)

  abbrev pub accepted : Bool → Result (Unit {0})
  accepted true = ok tt
  accepted false = err client_error

  -- The package of the keys, signed and sent.
  unfoldable pub send_package : (epoch : ℕ) → (contents : Bytes) → Result (Unit {0})
  send_package epoch contents =
      or_error (unable "unable to sign") (o.sign_package epoch contents) >>= (λ signature.
        accepted (
          o.accepts_package (record { epoch = epoch; contents = contents; signature = signature })))

  abbrev pub package_for : TestContext → Option (List Bytes) → TestContext × Result (Unit {0})
  unfolding generate_flip_encryption_key send_package
  package_for context none = (context, err (unable "unable to get candidates"))
  package_for context (some pub_keys) =
      let (context', public_key) = generate_flip_encryption_key signer true context in
      let (after, private_key) = generate_flip_encryption_key signer false context' in
      (after, send_package after.epoch (o.encrypt_package public_key private_key pub_keys))

  -- `SendPrivateFlipKeysPackages`: nothing is sent without a flip.
  unfoldable pub send_private_flip_keys_packages : TestContext → TestContext × Result (Unit {0})
  unfolding generate_flip_encryption_key send_package
  send_private_flip_keys_packages context =
      if context.made_flips == 0
      then (context, ok tt)
      else package_for context (o.candidates signer.address)

  unfoldable pub send_key : (epoch : ℕ) → (key : Bytes) → Result (Unit {0})
  send_key epoch key =
      or_error (unable "unable to sign") (o.sign_flip_key epoch key) >>= (λ signature.
        accepted (o.accepts_key (record { epoch = epoch; contents = key; signature = signature })))

  -- `SendPublicFlipKey`
  unfoldable pub send_public_flip_key : TestContext → TestContext × Result (Unit {0})
  unfolding generate_flip_encryption_key send_key
  send_public_flip_key context =
      let (after, key) = generate_flip_encryption_key signer true context in
      if context.made_flips == 0 then (context, ok tt) else (after, send_key after.epoch key)
