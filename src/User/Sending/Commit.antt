-- ===== src/User/Sending/Commit.antt =====
-- user/user_shared.go: the answers that are opened are those of the hash, and one pair of keys serves a test.
use idena_test_go.Prelude.{
  ℕ, ◌≡◌, refl, ap, ◌∙◌, inl, true, false, some, List, [], ◌∷◌, ◌++◌, Option, none, Bytes, ◌==◌,
}
use idena_test_go.Prelude.Result.{Result, ok, unable, or_error, ◌>>=◌}
use idena_test_go.Client.{FlipAnswer}
use idena_test_go.Process.Flips.{Flip}
use idena_test_go.Process.Answers.{FlipHash}
use idena_test_go.User.{TestContext}
use idena_test_go.User.Prepared.{flips_of}
use idena_test_go.User.Keys.{
  Signer, SharedNode, derived_key, generate_flip_encryption_key, get_short_answers_salt, plain_tx,
  send_transaction, submit_short_answers_tx,
}
use idena_test_go.User.Sending.{
  Outside, get_words_rnd, open_answers, open_with_seed, answers_to, short_answers,
  submit_open_short_answers, long_answers, submit_long_answers, submit_flip, package_for,
  send_private_flip_keys_packages, send_public_flip_key, send_key, send_flip,
}
use idena_test_go.User.Sending.Agrees.{
  Agrees, generate-Agrees, choose-Agrees, open_with_seed-Agrees, both-Agrees, package_for-Agrees,
}

-- What a user does in a test behind its short answers, in any order.
pub data Act : Type 0 where
  submits_flip : (private_hex public_hex : Bytes) → (pair : ℕ) → Act
  opens_answers sends_package sends_key : Act
  submits_long_answers : List FlipAnswer → Act
  -- sets the flips of the sessions and keeps flips that it gets
  gets_flips : (short long : List FlipHash) → Option (List (Bytes × Flip)) → Act

module _ {F : Type 0} (o : Outside) (signer : Signer) (node : SharedNode F) where
  unfoldable pub act : Act → TestContext → TestContext
  unfolding submit_flip submit_open_short_answers submit_long_answers
      send_private_flip_keys_packages send_public_flip_key
  act (submits_flip private_hex public_hex pair) context =
      (submit_flip o signer node private_hex public_hex pair context).0
  act opens_answers context = (submit_open_short_answers o signer node context).0
  act sends_package context = (send_private_flip_keys_packages o signer node context).0
  act sends_key context = (send_public_flip_key o signer node context).0
  act (submits_long_answers answers) context = (submit_long_answers o signer node answers context).0
  act (gets_flips short long flips) context = record context {
    short_flip_hashes = short;
    long_flip_hashes = long;
    flips_by_hash = flips;
  }

  unfoldable pub acts : List Act → TestContext → TestContext
  unfolding act
  acts [] context = context
  acts (a ∷ rest) context = acts rest (act a context)

  act-Agrees :
      (epoch : ℕ) (answers : Bytes) (a : Act) (context : TestContext)
      → Agrees signer epoch answers context
      → Agrees signer epoch answers (act a context)
  unfolding act submit_flip submit_open_short_answers submit_long_answers long_answers
      send_private_flip_keys_packages send_public_flip_key
  act-Agrees epoch answers (submits_flip private_hex public_hex pair) context h =
      let both = both-Agrees signer epoch answers o node context h in
      record {
        same_epoch = both.same_epoch;
        same_answers = both.same_answers;
        public_derived = both.public_derived;
        private_derived = both.private_derived;
      }
  act-Agrees epoch answers opens_answers context h =
      open_with_seed-Agrees signer epoch answers o node context o.words_seed h
  act-Agrees epoch answers sends_package context h =
      choose-Agrees signer epoch answers (context.made_flips == 0) (context, ok tt)
        (package_for o signer node context (o.candidates signer.address)) h
        (package_for-Agrees signer epoch answers o node context (o.candidates signer.address) h)
  act-Agrees epoch answers sends_key context h =
      let made = generate_flip_encryption_key signer true context in
      choose-Agrees signer epoch answers (context.made_flips == 0) (context, ok tt)
        (made.0, send_key o signer node made.0.epoch made.1) h
        (generate-Agrees signer epoch answers true context h).0
  act-Agrees epoch answers (submits_long_answers given) context h =
      (generate-Agrees signer epoch answers true context h).0
  act-Agrees epoch answers (gets_flips short long flips) context h = record {
    same_epoch = h.same_epoch;
    same_answers = h.same_answers;
    public_derived = h.public_derived;
    private_derived = h.private_derived;
  }

  acts-Agrees :
      (epoch : ℕ) (answers : Bytes) (list : List Act) (context : TestContext)
      → Agrees signer epoch answers context
      → Agrees signer epoch answers (acts list context)
  unfolding acts
  acts-Agrees epoch answers [] context h = h
  acts-Agrees epoch answers (a ∷ rest) context h =
      acts-Agrees epoch answers rest (act a context) (act-Agrees epoch answers a context h)

-- The opening of short answers: the seed and the proof of it, or the error of either, and then the transaction
-- with the answers and the number that the proof gives.
abbrev pub opening :
    {F : Type 0} → Outside → Signer → SharedNode F → (answers : Bytes) → Result Bytes
unfolding get_words_rnd send_transaction
opening o signer node answers = do
  seed ← or_error (unable "unable to get words seed") o.words_seed
  h ← or_error (unable "cannot get hash from proof") (o.hash_from_proof (o.vrf_evaluate seed).1)
  send_transaction signer node (
      plain_tx node submit_short_answers_tx none
        (o.short_answer_attachment answers (get_words_rnd h)))

opening_lem :
    {F : Type 0} (o : Outside) (signer : Signer) (node : SharedNode F) (context : TestContext)
    → (submit_open_short_answers o signer node context).1
      ≡ opening o signer node context.short_answers_bytes
unfolding submit_open_short_answers open_answers
opening_lem o signer node context =
    elim o.words_seed
      as (λ seed.
        ((open_with_seed o signer node context seed).1 >>= send_transaction signer node) ≡ (
          or_error (unable "unable to get words seed") seed >>= (λ found.
            or_error (unable "cannot get hash from proof")
              (o.hash_from_proof (o.vrf_evaluate found).1)
            >>= (λ h. send_transaction signer node (
                plain_tx node submit_short_answers_tx none
                  (o.short_answer_attachment context.short_answers_bytes (get_words_rnd h))))))) [
                    | none ↦ refl
                    | some seed ↦
                        elim (o.hash_from_proof (o.vrf_evaluate seed).1)
                          as (λ found.
                            ((or_error (unable "cannot get hash from proof") found >>= (λ h. ok (
                                plain_tx node submit_short_answers_tx none (
                                  o.short_answer_attachment context.short_answers_bytes
                                    (get_words_rnd h)))))
                              >>= send_transaction signer node)
                            ≡ (or_error (unable "cannot get hash from proof") found >>= (λ h.
                                send_transaction signer node (
                                  plain_tx node submit_short_answers_tx none (
                                    o.short_answer_attachment context.short_answers_bytes
                                      (get_words_rnd h)))))) [ none ↦ refl | some h ↦ refl ]
                  ]

-- In a test that starts without keys, whatever a user does after it has sent the hash of its short answers, in
-- any order: the hash is that of the answers that it gave to the flips of the short session, with the salt
-- that its long answers give away, and when it opens its answers, it sends just these answers, or fails for
-- the want of the seed or of the hash of its proof; the long answers also give away the public key of its
-- flips, and its flips are encrypted with that key and the private one, both of which depend on the epoch only.
pub acts_lem :
    {F : Type 0} (o : Outside) (signer : Signer) (node : SharedNode F) (list : List Act)
    (given later : List FlipAnswer) (private_hex public_hex : Bytes) (pair : ℕ)
    (context : TestContext)
    → context.public_encryption_key ≡ none
    → context.private_encryption_key ≡ none
    → let (after, hashed) = short_answers o signer node given context in
      let end = acts o signer node list after in
      let (last, long) = long_answers o signer node later end in
      let salt = get_short_answers_salt signer context.epoch in
      let bytes =
        answers_to o signer node given (flips_of o.parse_cid context.short_flip_hashes) true in
      (hashed.payload ≡ signer.hash (bytes ++ salt))
      × ((submit_open_short_answers o signer node end).1 ≡ opening o signer node bytes)
      × (long.payload
          ≡ o.long_answer_attachment
              (answers_to o signer node later (flips_of o.parse_cid end.long_flip_hashes) false)
              last.words_proof
              salt
              (derived_key signer true context.epoch))
      × ((submit_flip o signer node private_hex public_hex pair end).1
          ≡ send_flip o signer node
              (derived_key signer true context.epoch)
              (derived_key signer false context.epoch)
              private_hex
              public_hex
              pair)
unfolding short_answers long_answers submit_flip submit_open_short_answers open_answers
acts_lem o signer node list given later private_hex public_hex pair context no_public no_private =
    let (after, hashed) = short_answers o signer node given context in
    let start : Agrees signer context.epoch after.short_answers_bytes after = record {
      same_epoch = refl;
      same_answers = refl;
      public_derived = inl no_public;
      private_derived = inl no_private;
    } in
    let end = acts o signer node list after in
    let holds =
      acts-Agrees o signer node context.epoch after.short_answers_bytes list after start in
    let once = generate-Agrees signer context.epoch after.short_answers_bytes true end holds in
    let twice =
      generate-Agrees signer context.epoch after.short_answers_bytes false
        (generate_flip_encryption_key signer true end).0 once.0 in
    let attach =
      o.long_answer_attachment
        (answers_to o signer node later (flips_of o.parse_cid end.long_flip_hashes) false)
        (generate_flip_encryption_key signer true end).0.words_proof in
    let salt = get_short_answers_salt signer context.epoch in
    (
      refl,
      opening_lem o signer node end ∙ ap (opening o signer node) holds.same_answers,
      ap
            (λ n.
              attach (get_short_answers_salt signer n)
                (generate_flip_encryption_key signer true end).1)
            holds.same_epoch
          ∙ ap (attach salt) once.1,
      ap
            (λ key.
              send_flip o signer node key
                (generate_flip_encryption_key signer false
                  (generate_flip_encryption_key signer true end).0).1
                private_hex public_hex pair)
            once.1
          ∙ ap
              (λ key.
                send_flip o signer node (derived_key signer true context.epoch) key private_hex
                  public_hex pair)
              twice.1,
    )
