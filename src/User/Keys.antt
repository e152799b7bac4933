-- ===== src/User/Keys.antt =====
-- user/user_shared.go: the keys that a user of a shared node derives from its own one, and the transactions
-- that it signs.
use idena_test_go.Prelude.{ℕ, Bool, true, false, [], ◌++◌, Option, none, some, Bytes, String, codes}
use idena_test_go.Prelude.Result.{Result, unable, client_error, or_error, with_message, ◌>>=◌}
use idena_test_go.Prelude.Decimal.{itoa}
use idena_test_go.User.{TestContext}

-- The functions of idena-go on the key of the user: what it signs, the key that it makes of a seed, what a
-- transaction in bytes is signed to, in the steps of the code, and what its other functions return.
pub record Signer : Type 0 where
  pub address : Bytes
  pub pub_key : Bytes
  pub hash : Bytes → Bytes
  pub sha3 : Bytes → Bytes
  -- `crypto.Sign`, whose error the code drops
  pub sign : Bytes → Bytes
  pub key_from_seed : Bytes → Bytes
  pub hex_decode : Bytes → Option Bytes
  pub tx_from_bytes : Bytes → Option Bytes
  pub sign_tx : Bytes → Option Bytes
  pub tx_to_bytes : Bytes → Option Bytes

-- `tx_types` of idena-go that the code names; `other_tx` is any other number.
pub data TxType : Type 0 where
  submit_flip_tx submit_answers_hash_tx submit_short_answers_tx submit_long_answers_tx : TxType
  invite_tx delegate_tx undelegate_tx : TxType
  other_tx : ℕ → TxType

-- The arguments of `GetRawTx`, where amounts are of a type of their own.
pub record TxArgs (F : Type 0) : Type 0 where
  pub tx_type : TxType
  pub to : Option Bytes
  pub amount : F
  pub max_fee : F
  pub payload : Bytes

-- The node that is shared: a transaction without a signature for the arguments, and what it answers when it
-- gets a signed one.
pub record SharedNode (F : Type 0) : Type 0 where
  pub no_amount : F
  pub get_raw_tx : (from : Bytes) → TxArgs F → Option Bytes
  pub send_raw_tx : Bytes → Option Bytes

-- `fmt.Sprintf(text + "%v", epoch)`
unfoldable pub seed_of : String → ℕ → Bytes
unfolding itoa
seed_of text epoch = codes text ++ itoa epoch

unfoldable pub key_seed : (public : Bool) → ℕ → Bytes
unfolding seed_of
key_seed true epoch = seed_of "flip-key-for-epoch-" epoch
key_seed false epoch = seed_of "flip-private-key-for-epoch-" epoch

-- The key that `generateFlipEncryptionKey` makes where it has none.
unfoldable pub derived_key : Signer → (public : Bool) → (epoch : ℕ) → Bytes
unfolding key_seed
derived_key signer public epoch =
    signer.key_from_seed (signer.sign (signer.hash (key_seed public epoch)))

abbrev pub kept_key : Bool → TestContext → Option Bytes
kept_key true context = context.public_encryption_key
kept_key false context = context.private_encryption_key

abbrev pub keep_key : Bool → Bytes → TestContext → TestContext
keep_key true key context = record context { public_encryption_key = some key }
keep_key false key context = record context { private_encryption_key = some key }

unfoldable pub key_or_derived :
    Signer → (public : Bool) → TestContext → Option Bytes → TestContext × Bytes
unfolding derived_key
key_or_derived signer public context (some key) = (context, key)
key_or_derived signer public context none =
    let key = derived_key signer public context.epoch in (keep_key public key context, key)

-- `generateFlipEncryptionKey`
unfoldable pub generate_flip_encryption_key :
    Signer → (public : Bool) → TestContext → TestContext × Bytes
unfolding key_or_derived
generate_flip_encryption_key signer public context =
    key_or_derived signer public context (kept_key public context)

-- `getShortAnswersSalt`
unfoldable pub get_short_answers_salt : Signer → ℕ → Bytes
unfolding seed_of
get_short_answers_salt signer epoch =
    signer.sha3 (signer.sign (signer.hash (seed_of "short-answers-salt-" epoch)))

-- `buildSignedTransactionRaw`
unfoldable pub build_signed_transaction_raw :
    {F : Type 0} → Signer → SharedNode F → TxArgs F → Result Bytes
build_signed_transaction_raw signer node args = do
  raw ← or_error (unable "unable to get raw tx") (node.get_raw_tx signer.address args)
  bytes ← or_error (unable "unable to decode raw tx") (signer.hex_decode raw)
  tx ← or_error (unable "unable to deserialize raw tx") (signer.tx_from_bytes bytes)
  signed ← or_error (unable "unable to sign tx") (signer.sign_tx tx)
  or_error (unable "unable to serialize signed tx") (signer.tx_to_bytes signed)

-- `sendTransaction` and `SendTransaction`, which takes the mutex first.
unfoldable pub send_transaction : {F : Type 0} → Signer → SharedNode F → TxArgs F → Result Bytes
unfolding build_signed_transaction_raw
send_transaction signer node args = do
  raw ←
      with_message (unable "unable to serialize signed tx")
        (build_signed_transaction_raw signer node args)
  or_error client_error (node.send_raw_tx raw)

-- A transaction without an amount.
abbrev pub plain_tx : {F : Type 0} → SharedNode F → TxType → Option Bytes → Bytes → TxArgs F
plain_tx node tx_type to payload = record {
  tx_type = tx_type;
  to = to;
  amount = node.no_amount;
  max_fee = node.no_amount;
  payload = payload;
}

-- `SendInvite`, which returns the hash of the transaction.
unfoldable pub send_invite : {F : Type 0} → Signer → SharedNode F → (to : Bytes) → F → Result Bytes
unfolding send_transaction
send_invite signer node to amount =
    send_transaction signer node (record (plain_tx node invite_tx (some to) []) { amount = amount })

-- `BecomeOnline` of a user of a shared node delegates to the owner of the node.
unfoldable pub become_online :
    {F : Type 0} → Signer → SharedNode F → (parent : Bytes) → Result Bytes
unfolding send_transaction
become_online signer node parent =
    send_transaction signer node (plain_tx node delegate_tx (some parent) [])

-- `BecomeOffline` of a user of a shared node
unfoldable pub become_offline : {F : Type 0} → Signer → SharedNode F → Result Bytes
unfolding send_transaction
become_offline signer node = send_transaction signer node (plain_tx node undelegate_tx none [])
