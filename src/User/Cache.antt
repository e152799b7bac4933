-- ===== src/User/Cache.antt =====
-- user/user.go and user/user_shared.go: how a user gets a flip. A user of a shared node keeps what it got.
pub mod Kept
pub mod Flips
use idena_test_go.Prelude.{Bool, true, false, List, [], ◌∷◌, Option, none, some, Bytes, String}
use idena_test_go.Prelude.Result.{
  Result, ok, err, panic, unable, client_error, or_error, succeeds, ◌>>=◌,
}
use idena_test_go.Process.Flips.{Flip, to_hex}
use idena_test_go.Process.Answers.{FlipHash}
use idena_test_go.User.{TestContext, FlipKeys, RawFlip, cached}

-- What a user gets from outside: the answers of the node, or none for an error, and the functions of
-- idena-go on keys: whether bytes are a key, and what a key decrypts a message to.
pub record Source : Type 0 where
  pub get_flip : Bytes → Option Flip
  pub get_flip_raw : Bytes → Option RawFlip
  pub get_flip_keys : (address hash : Bytes) → Option FlipKeys
  pub get_short_flip_hashes : (address : Bytes) → Option (List FlipHash)
  pub get_long_flip_hashes : (address : Bytes) → Option (List FlipHash)
  pub to_ecdsa : Bytes → Option Bytes
  pub decrypt : (key message : Bytes) → Option Bytes

-- `bytesToPrivateKey`
unfoldable pub bytes_to_private_key : Source → String → Bytes → Result Bytes
bytes_to_private_key source text b = or_error (unable text) (source.to_ecdsa b)

-- The two parts of a flip, as a user reads them with its keys.
unfoldable pub decrypt_flip : Source → RawFlip → (public_key private_key : Bytes) → Result Flip
unfolding to_hex
decrypt_flip source raw public_key private_key = do
  public_part ←
      or_error (unable "unable to decrypt flip public part")
        (source.decrypt public_key raw.public_part)
  private_part ←
      or_error (unable "unable to decrypt flip private part")
        (source.decrypt private_key raw.private_part)
  ok (record { private_hex = to_hex private_part; public_hex = to_hex public_part })

-- `GetFlip` of a user with its own node.
unfoldable pub own_flip : Source → (address : Bytes) → (decrypts : Bool) → Bytes → Result Flip
unfolding bytes_to_private_key decrypt_flip
own_flip source address false hash = or_error client_error (source.get_flip hash)
own_flip source address true hash = do
  raw ← or_error (unable "unable to get flip raw") (source.get_flip_raw hash)
  keys ← or_error (unable "unable to get flip keys") (source.get_flip_keys address hash)
  public_key ← bytes_to_private_key source "unable to convert public key" keys.public_key
  private_key ← bytes_to_private_key source "unable to convert private key" keys.private_key
  decrypt_flip source raw public_key private_key

-- `decryptMessage`
unfoldable pub decrypt_message : Source → (key message : Bytes) → Result Bytes
decrypt_message source key message =
    or_error (unable "unable to decrypt private key") (source.decrypt key message)

-- The part of `GetFlip` of a user of a shared node that asks the node and decrypts.
unfoldable pub load_flip : Source → (address key hash : Bytes) → Result Flip
unfolding bytes_to_private_key decrypt_flip decrypt_message
load_flip source address key hash = do
  raw ← or_error (unable "unable to get flip raw") (source.get_flip_raw hash)
  keys ← or_error (unable "unable to get flip keys") (source.get_flip_keys address hash)
  public_key ← bytes_to_private_key source "unable to convert public key" keys.public_key
  decrypted ← decrypt_message source key keys.private_key
  private_key ← bytes_to_private_key source "unable to convert private key" decrypted
  decrypt_flip source raw public_key private_key

abbrev pub flips_or_none : Option (List (Bytes × Flip)) → List (Bytes × Flip)
flips_or_none none = []
flips_or_none (some flips) = flips

-- `FlipsByHash[hash] = res`, in a new map where there is none.
unfoldable pub keep_flip : Bytes → TestContext → Result Flip → TestContext × Result Flip
keep_flip hash context (err e) = (context, err e)
keep_flip hash context (panic x) = (context, panic x)
keep_flip hash context (ok flip) = (
  record context { flips_by_hash = some ((hash, flip) ∷ flips_or_none context.flips_by_hash) },
  ok flip,
)

-- What is in the map is returned, and the rest is loaded.
unfoldable pub serve_flip :
    Bytes → TestContext → Result Flip → Option Flip → TestContext × Result Flip
unfolding keep_flip
serve_flip hash context loaded (some flip) = (context, ok flip)
serve_flip hash context loaded none = keep_flip hash context loaded

-- `GetFlip` of a user of a shared node, which does not read `decryptFlips`.
unfoldable pub get_flip :
    Source → (address key hash : Bytes) → TestContext → TestContext × Result Flip
unfolding serve_flip load_flip
get_flip source address key hash context =
    serve_flip hash context (load_flip source address key hash) (cached context hash)

-- The loop of `GetShortFlipHashes` and `GetLongFlipHashes`: a flip is ready where it can be read.
unfoldable pub mark_ready :
    Source → (address key : Bytes) → List FlipHash → TestContext → TestContext × List FlipHash
unfolding get_flip
mark_ready source address key [] context = (context, [])
mark_ready source address key (item ∷ items) context =
    let (now, found) = get_flip source address key item.hash context in
    let (end, marked) = mark_ready source address key items now in
    (end, record item { ready = succeeds found } ∷ marked)

unfoldable pub marked_hashes :
    Source
    → (address key : Bytes) → TestContext
    → Option (List FlipHash)
    → TestContext × Result (List FlipHash)
unfolding mark_ready
marked_hashes source address key context none = (context, err client_error)
marked_hashes source address key context (some items) =
    let (end, marked) = mark_ready source address key items context in (end, ok marked)

-- `GetShortFlipHashes` of a user of a shared node
unfoldable pub get_short_flip_hashes :
    Source → (address key : Bytes) → TestContext → TestContext × Result (List FlipHash)
unfolding marked_hashes
get_short_flip_hashes source address key context =
    marked_hashes source address key context (source.get_short_flip_hashes address)

-- `GetLongFlipHashes` of a user of a shared node
unfoldable pub get_long_flip_hashes :
    Source → (address key : Bytes) → TestContext → TestContext × Result (List FlipHash)
unfolding marked_hashes
get_long_flip_hashes source address key context =
    marked_hashes source address key context (source.get_long_flip_hashes address)
