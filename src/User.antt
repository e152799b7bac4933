-- ===== src/User.antt =====
-- user/: a user of the network as the process sees it, over the client of its node. A user either has a node
-- of its own (user/user.go) or shares that of another user (user/user_shared.go) and then signs and encrypts
-- itself. `Flips` has the flips that a user has to make, `Cache` the flips that it gets, `Prepared` the answers
-- that a user of a shared node sends, `Sending` its transactions and keys, and `Started` the start of a node.

pub mod Cache
pub mod Flips
pub mod Prepared
pub mod Keys
pub mod Sending
pub mod Started
mod Tests
use idena_test_go.Prelude.{ℕ, Bool, List, [], ◌∷◌, Option, none, some, Bytes, if◌then◌else◌}
use idena_test_go.Prelude.Int.{ℤ}
use idena_test_go.Process.Flips.{Flip, same_text}
use idena_test_go.Process.Answers.{FlipHash}

-- `TestContext`, what a user keeps in a test. A key is its bytes, and a map that is nil is none.
pub record TestContext : Type 0 where
  pub epoch : ℕ
  pub short_answers_bytes : Bytes
  pub short_flip_hashes : List FlipHash
  pub long_flip_hashes : List FlipHash
  pub words_proof : Bytes
  pub public_encryption_key : Option Bytes
  pub private_encryption_key : Option Bytes
  pub test_start_time : ℤ
  pub required_flips : ℕ
  pub made_flips : ℕ
  pub flips_by_hash : Option (List (Bytes × Flip))

-- `FlipWord`, and `FlipWords` with its array of two.
pub record FlipWord : Type 0 where
  pub id : ℕ
  pub name : Bytes
  pub description : Bytes

abbrev pub FlipWords : Type 0
FlipWords = FlipWord × FlipWord

-- The keys of a flip that the node gives, and a flip as it is stored, both in bytes.
pub record FlipKeys : Type 0 where
  pub public_key : Bytes
  pub private_key : Bytes

pub record RawFlip : Type 0 where
  pub public_part : Bytes
  pub private_part : Bytes

-- `GetTestContext().FlipsByHash[hash]`, by the last write.
unfoldable pub flip_in : List (Bytes × Flip) → Bytes → Option Flip
unfolding same_text
flip_in [] hash = none
flip_in ((h, flip) ∷ flips) hash = if same_text h hash then some flip else flip_in flips hash

abbrev pub cached : TestContext → Bytes → Option Flip
unfolding flip_in
cached context hash = elim context.flips_by_hash [ none ↦ none | some flips ↦ flip_in flips hash ]
