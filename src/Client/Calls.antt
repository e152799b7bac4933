-- ===== src/Client/Calls.antt =====
-- client/client.go: the methods of the client that decode the result of the node into a value.
pub mod Texts
use idena_test_go.Prelude.{
  ℕ, Bool, true, false, List, [], ◌∷◌, Option, none, some, String, Bytes, if◌then◌else◌, ltb,
  length,
}
use idena_test_go.Prelude.Int.{ℤ}
use idena_test_go.Client.{
  Payload, no_payload, texts, text_and_flag, text_and_bytes, number, send_invite_args,
  submit_answers_args, flip_submit_args, change_profile_args, api_args, FlipAnswer, Client,
  Progress, Answer, call,
}

module _ {F X R : Type 0} (c : Client F X R) where
  -- `GetEpoch`
  abbrev pub get_epoch : Progress (Answer R)
  get_epoch = call c "dna_epoch" no_payload 10 true

  -- `GetIdentity`
  abbrev pub get_identity : String → Progress (Answer R)
  get_identity addr = call c "dna_identity" (texts (addr ∷ [])) 10 true

  -- `SendInvite`
  abbrev pub send_invite : String → F → Progress (Answer R)
  send_invite to amount =
      call c "dna_sendInvite" (send_invite_args (record { to = to; amount = amount })) 0 false

  -- `SubmitFlip`
  abbrev pub submit_flip : String → String → ℕ → Progress (Answer R)
  submit_flip private_hex public_hex word_pair_idx =
      call c "flip_submit"
        (flip_submit_args
          (record { private_hex = private_hex; public_hex = public_hex; pair = word_pair_idx }))
        0 false

  -- `getFlipHashes`
  abbrev pub get_flip_hashes : String → String → Progress (Answer R)
  get_flip_hashes address method = call c method (texts (address ∷ [])) 10 true

  -- `GetFlip`
  abbrev pub get_flip : String → Progress (Answer R)
  get_flip hash = call c "flip_get" (texts (hash ∷ [])) 15 true

  -- `GetFlipWords`
  abbrev pub get_flip_words : String → Progress (Answer R)
  get_flip_words hash = call c "flip_words" (texts (hash ∷ [])) 15 true

  -- `submitAnswers`
  abbrev pub submit_answers : List FlipAnswer → String → Progress (Answer R)
  submit_answers answers method = call c method (submit_answers_args answers) 10 false

  -- `CeremonyIntervals`
  abbrev pub ceremony_intervals : Progress (Answer R)
  ceremony_intervals = call c "dna_ceremonyIntervals" no_payload 10 true

  -- `GetPeers`
  abbrev pub get_peers : Progress (Answer R)
  get_peers = call c "net_peers" no_payload 10 true

  -- `AddPeer`
  abbrev pub add_peer : String → Progress (Answer R)
  add_peer url = call c "net_addPeer" (texts (url ∷ [])) 1 false

  -- `BurntCoins`
  abbrev pub burnt_coins : Progress (Answer R)
  burnt_coins = call c "bcn_burntCoins" no_payload 10 true

  -- `GetProfile`
  abbrev pub get_profile : String → Progress (Answer R)
  get_profile address = call c "dna_profile" (texts (address ∷ [])) 10 true

  -- `GetFlipRaw`
  abbrev pub get_flip_raw : String → Progress (Answer R)
  get_flip_raw hash = call c "flip_getRaw" (texts (hash ∷ [])) 5 false

  -- `GetFlipKeys`
  abbrev pub get_flip_keys : String → String → Progress (Answer R)
  get_flip_keys address hash = call c "flip_getKeys" (texts (address ∷ hash ∷ [])) 15 true

  -- `CheckSyncing`
  abbrev pub check_syncing : Progress (Answer R)
  check_syncing = call c "bcn_syncing" no_payload 15 true

  -- `Transaction`
  abbrev pub transaction : String → Progress (Answer R)
  transaction hash = call c "bcn_transaction" (texts (hash ∷ [])) 15 false

  -- `SubmitRawFlip`
  abbrev pub submit_raw_flip : X → Progress (Answer R)
  submit_raw_flip params = call c "flip_rawSubmit" (api_args params) 0 false

  -- `WordPairs`
  abbrev pub word_pairs : String → Bytes → Progress (Answer R)
  word_pairs addr vrf_hash = call c "flip_wordPairs" (text_and_bytes addr vrf_hash) 10 true

  -- `SendPublicEncryptionKey`
  abbrev pub send_public_encryption_key : X → Progress (Answer R)
  send_public_encryption_key args = call c "flip_sendPublicEncryptionKey" (api_args args) 10 false

  -- `SendPrivateEncryptionKeysPackage`
  abbrev pub send_private_encryption_keys_package : X → Progress (Answer R)
  send_private_encryption_keys_package args =
      call c "flip_sendPrivateEncryptionKeysPackage" (api_args args) 10 false

  -- `PrivateEncryptionKeyCandidates`
  abbrev pub private_encryption_key_candidates : X → Progress (Answer R)
  private_encryption_key_candidates addr =
      call c "flip_privateEncryptionKeyCandidates" (api_args addr) 10 true

  -- `KeyWord`
  abbrev pub key_word : ℤ → Progress (Answer R)
  key_word index = call c "bcn_keyWord" (number index) 10 true

  -- `GetShortFlipHashes`
  abbrev pub get_short_flip_hashes : String → Progress (Answer R)
  get_short_flip_hashes address = get_flip_hashes address "flip_shortHashes"

  -- `GetLongFlipHashes`
  abbrev pub get_long_flip_hashes : String → Progress (Answer R)
  get_long_flip_hashes address = get_flip_hashes address "flip_longHashes"

  -- `SubmitShortAnswers`
  abbrev pub submit_short_answers : List FlipAnswer → Progress (Answer R)
  submit_short_answers answers = submit_answers answers "flip_submitShortAnswers"

  -- `SubmitLongAnswers`
  abbrev pub submit_long_answers : List FlipAnswer → Progress (Answer R)
  submit_long_answers answers = submit_answers answers "flip_submitLongAnswers"

  -- `ChangeProfile`
  abbrev pub change_profile : Option String → Bytes → Progress (Answer R)
  change_profile nickname info =
      call c "dna_changeProfile"
        (change_profile_args
          (record { info = if ltb 0 (length info) then some info else none; nickname = nickname }))
        0 false
