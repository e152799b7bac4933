-- ===== src/Process/Flips.antt =====
-- process/verification.go: the flips that a user makes, and the check of a flip that it gets.
mod Tests
pub mod Sizes
use idena_test_go.Prelude.{
  ℕ, zero, suc, ◌+◌, ◌-◌, ◌*◌, ◌/◌, ◌%◌, Bool, true, false, ◌&&◌, List, [], ◌∷◌, ◌++◌, Option, none,
  some, Bytes, codes, ltb, ◌==◌, if◌then◌else◌,
}
use idena_test_go.Prelude.Result.{Result, ok, err, panic, no_random_bytes, division_by_zero, ◌>>=◌}

-- `for i := len(bytes) - 1; i >= 0; i-- { res = append(res, bytes[i]) }`
unfoldable pub reverse : Bytes → Bytes
reverse [] = []
reverse (b ∷ bytes) = reverse bytes ++ b ∷ []

abbrev pub digit_of : ℕ → ℕ
digit_of n = if ltb n 10 then b'0' + n else b'a' + (n - 10)

-- `"0x" + hex.EncodeToString(bytes)`
pub encode : Bytes → Bytes
encode [] = []
encode (b ∷ bytes) = digit_of (b / 16 % 16) ∷ digit_of (b % 16) ∷ encode bytes

unfoldable pub to_hex : Bytes → Bytes
unfolding encode
to_hex bytes = codes "0x" ++ encode bytes

pub record Flip : Type 0 where
  pub private_hex : Bytes
  pub public_hex : Bytes

-- `randomBytes`: what `rand.Read` fills a slice of the length with, or its error.
pub random_bytes : (ℕ → Option Bytes) → ℕ → Result Bytes
random_bytes read n = elim (read n) [ none ↦ err no_random_bytes | some bytes ↦ ok bytes ]

-- `rand.Int()%(maxSize-minSize) + minSize`, where `r` is the random number. With sizes in the wrong order
-- the remainder is that by their difference, since `r` is not negative.
abbrev difference : ℕ → ℕ → ℕ
difference min_size max_size = (max_size - min_size) + (min_size - max_size)

pub flip_size : ℕ → ℕ → ℕ → Result ℕ
flip_size r min_size max_size = elim (difference min_size max_size) [
  | zero ↦ panic division_by_zero
  | suc n ↦ ok (r % suc n + min_size)
]

-- `generateFlip`
unfoldable pub generate_flip : (ℕ → Option Bytes) → ℕ → ℕ → ℕ → Result Flip
unfolding flip_size random_bytes to_hex reverse
generate_flip read r min_size max_size = do
  size ← flip_size r (min_size / 2) (max_size / 2)
  bytes ← random_bytes read size
  ok (record { private_hex = to_hex bytes; public_hex = to_hex (reverse bytes) })

unfoldable pub same_text : Bytes → Bytes → Bool
same_text [] [] = true
same_text (a ∷ s) (b ∷ t) = a == b && same_text s t
same_text _ _ = false

-- `assertFlip`, where `from_hex` is `FromHex` of idena-go: whether it returns without an error.
unfoldable pub assert_flip : (Bytes → Bytes) → Flip → Bool
unfolding same_text reverse to_hex
assert_flip from_hex flip = same_text (to_hex (reverse (from_hex flip.private_hex))) flip.public_hex
