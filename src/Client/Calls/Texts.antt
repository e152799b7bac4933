-- ===== src/Client/Calls/Texts.antt =====
-- client/client.go: the methods of the client whose result is asserted to be a string.
use idena_test_go.Prelude.{
  ℕ, Bool, true, false, [], ◌∷◌, Option, none, some, String, Bytes, if◌then◌else◌, ltb, length,
}
use idena_test_go.Prelude.Float.{Float}
use idena_test_go.Client.{
  no_payload, texts, text_and_flag, blank, send_tx_args, burn_args, store_to_ipfs_tx_args, api_args,
  Client, Progress, Answer, done, refused, not_sent, unreadable, not_text, unfinished, call,
}

-- `resp.Result.(string)`, where `as_text` tells a string from other values.
abbrev text_answer : {R : Type 0} → (R → Option String) → Answer R → Answer String
text_answer as_text (done result) = elim (as_text result) [ none ↦ not_text | some s ↦ done s ]
text_answer as_text (refused message) = refused message
text_answer as_text (not_sent e) = not_sent e
text_answer as_text unreadable = unreadable
text_answer as_text not_text = not_text
text_answer as_text unfinished = unfinished

unfoldable pub text_of :
    {R : Type 0} → (R → Option String) → Progress (Answer R) → Progress (Answer String)
text_of as_text p = record {
  answer = text_answer as_text p.answer;
  next = p.next;
  events = p.events;
}

module _ {F X R : Type 0} (as_text : R → Option String) (c : Client F X R) where
  -- `GetCoinbaseAddr`
  abbrev pub get_coinbase_addr : Progress (Answer String)
  get_coinbase_addr = text_of as_text (call c "dna_getCoinbaseAddr" no_payload 10 true)

  -- `GetPubKey`
  abbrev pub get_pub_key : Progress (Answer String)
  get_pub_key = text_of as_text (call c "dna_getPublicKey" no_payload 10 true)

  -- `GetIpfsAddress`
  abbrev pub get_ipfs_address : Progress (Answer String)
  get_ipfs_address = text_of as_text (call c "net_ipfsAddress" no_payload 10 true)

  -- `ActivateInvite`
  abbrev pub activate_invite : X → Progress (Answer String)
  activate_invite params = text_of as_text (call c "dna_activateInvite" (api_args params) 0 false)

  -- `DeleteFlip`
  abbrev pub delete_flip : String → Progress (Answer String)
  delete_flip hash = text_of as_text (call c "flip_delete" (texts (hash ∷ [])) 0 false)

  -- `becomeOnline`
  abbrev pub set_online : Bool → Progress (Answer String)
  set_online online =
      text_of as_text
        (call c (if online then "dna_becomeOnline" else "dna_becomeOffline") blank 10 false)

  -- `Burn`
  abbrev pub burn : String → F → F → String → Progress (Answer String)
  burn from amount max_fee key = text_of as_text (
      call c "dna_burn"
        (burn_args (record { from = from; amount = amount; max_fee = max_fee; key = key })) 10
        false)

  -- `AddIpfsData`
  abbrev pub add_ipfs_data : String → Bool → Progress (Answer String)
  add_ipfs_data data_hex pin =
      text_of as_text (call c "ipfs_add" (text_and_flag data_hex pin) 60 false)

  -- `IpfsDataCid`
  abbrev pub ipfs_data_cid : String → Progress (Answer String)
  ipfs_data_cid data_hex = text_of as_text (call c "ipfs_cid" (texts (data_hex ∷ [])) 60 false)

  -- `StoreToIpfs`
  abbrev pub store_to_ipfs : String → Progress (Answer String)
  store_to_ipfs cid =
      text_of as_text (call c "dna_storeToIpfs" (store_to_ipfs_tx_args cid) 10 false)

  -- `BecomeOnline`
  abbrev pub become_online : Progress (Answer String)
  become_online = set_online true

  -- `BecomeOffline`
  abbrev pub become_offline : Progress (Answer String)
  become_offline = set_online false

  -- `SendRawTx`, where `encode` is `hexutil.Encode`
  abbrev pub send_raw_tx : (Bytes → String) → Bytes → Progress (Answer String)
  send_raw_tx encode raw =
      text_of as_text (call c "bcn_sendRawTx" (texts (encode raw ∷ [])) 10 false)

module _ {F X R : Type 0} ⦃float : Float F⦄ (as_text : R → Option String) (c : Client F X R) where
  -- `if maxFee > 0 { params.MaxFee = &maxFee }`
  abbrev positive_fee : F → Option F
  positive_fee max_fee = if float.less float.zero max_fee then some max_fee else none

  -- `SendTransaction`
  abbrev pub send_transaction :
      ℕ → String → Option String → F → F → Option String → Progress (Answer String)
  send_transaction tx_type from to amount max_fee payload_hex = text_of as_text (
      call c "dna_sendTransaction"
        (send_tx_args (record {
          from = from;
          to = to;
          amount = amount;
          max_fee = positive_fee max_fee;
          tx_type = tx_type;
          payload_hex = payload_hex;
          use_proto = false;
        }))
        10 false)

  -- `GetRawTx`
  abbrev pub get_raw_tx :
      (Bytes → String) → ℕ → String → Option String → F → F → Bytes → Progress (Answer String)
  get_raw_tx encode tx_type from to amount max_fee payload = text_of as_text (
      call c "bcn_getRawTx"
        (send_tx_args (record {
          from = from;
          to = to;
          amount = amount;
          max_fee = positive_fee max_fee;
          tx_type = tx_type;
          payload_hex = if ltb 0 (length payload) then some (encode payload) else none;
          use_proto = true;
        }))
        10 true)
