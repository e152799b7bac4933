-- ===== src/Process/Flips/Sizes.antt =====
-- process/verification.go: a flip that is made passes the check, and has a size in the range.
use idena_test_go.Prelude.{
  ℕ, suc, ◌+◌, ◌-◌, ◌*◌, ◌/◌, ◌%◌, ◌≤◌, ◌<◌, ◌≡◌, refl, true, [], ◌∷◌, Option, some, Bytes, length,
  length-append, All, arith, ==_iff,
}
use idena_test_go.Prelude.Result.{ok}
use idena_test_go.Process.Flips.{
  Flip, reverse, encode, to_hex, flip_size, random_bytes, generate_flip, same_text, assert_flip,
}

abbrev pub AreBytes : Bytes → Type 0
AreBytes = All (λ b. b < 256)

pub same_text-eq : (a b : Bytes) → same_text a b ≡ true → a ≡ b
unfolding same_text
same_text-eq [] [] h = refl
same_text-eq [] (y ∷ b) h = cc
same_text-eq (x ∷ a) [] h = cc
same_text-eq (x ∷ a) (y ∷ b) h = ground (arith, same_text-eq a b)

pub same_text_refl : (s : Bytes) → same_text s s ≡ true
unfolding same_text
same_text_refl [] = refl
same_text_refl (b ∷ s) = ground (arith, same_text_refl s, ==_iff b b)

length-encode : (s : Bytes) → length (encode s) ≡ 2 * length s
unfolding encode
length-encode [] = refl
length-encode (b ∷ s) = omega (arith, length-encode s)

length-reverse : (s : Bytes) → length (reverse s) ≡ length s
unfolding reverse
length-reverse [] = refl
length-reverse (b ∷ s) = omega (arith, length-append (reverse s) (b ∷ []), length-reverse s)

length-to_hex : (s : Bytes) → length (to_hex s) ≡ 2 * length s + 2
unfolding to_hex
length-to_hex s = omega (arith, length-encode s)

mod_below :
    (r k low high : ℕ) → (high - low) + (low - high) ≡ suc k → low < high → r % suc k + low < high
mod_below r k low high e h = let small : r % suc k < suc k = grind arith in omega arith

flip_size_lem :
    (r low high : ℕ) → low < high → (n : ℕ) × (flip_size r low high ≡ ok n) × (low ≤ n) × (n < high)
unfolding flip_size
flip_size_lem r low high h =
    let e : (high - low) + (low - high) ≡ suc (high - low - 1) = omega arith in
    (
      r % suc (high - low - 1) + low,
      rw (e, flip_size) refl,
      omega arith,
      mod_below r (high - low - 1) low high e h,
    )

-- Where the random source gives as many bytes as it is asked for, `FromHex` reads back what
-- `EncodeToString` wrote, and the halves of the sizes are in order, a flip is made; it passes the
-- check, its two texts have the same length, and that is from the smaller size up to the larger one,
-- an odd size being rounded down to an even one and the two characters "0x" put before.
pub generate_flip_lem :
    (read : ℕ → Option Bytes) (from_hex : Bytes → Bytes) (r min_size max_size : ℕ)
    → ((n : ℕ) → (bytes : Bytes) × (read n ≡ some bytes) × (length bytes ≡ n) × AreBytes bytes)
    → ((bytes : Bytes) → AreBytes bytes → from_hex (to_hex bytes) ≡ bytes)
    → min_size / 2 < max_size / 2
    → (flip : Flip) × (generate_flip read r min_size max_size ≡ ok flip)
      × (assert_flip from_hex flip ≡ true)
      × (length flip.private_hex ≡ length flip.public_hex)
      × (2 * (min_size / 2) + 2 ≤ length flip.private_hex)
      × (length flip.private_hex < 2 * (max_size / 2) + 2)
unfolding generate_flip assert_flip random_bytes
generate_flip_lem read from_hex r min_size max_size reads inverse h =
    let (n, sized, low, high) = flip_size_lem r (min_size / 2) (max_size / 2) h in
    let (bytes, got, len, small) = reads n in
    (
      record { private_hex = to_hex bytes; public_hex = to_hex (reverse bytes) },
      rw (sized, random_bytes, got) refl,
      rw (inverse bytes small) (same_text_refl (to_hex (reverse bytes))),
      omega (arith, length-to_hex bytes, length-to_hex (reverse bytes), length-reverse bytes),
      omega (arith, length-to_hex bytes),
      omega (arith, length-to_hex bytes),
    )
