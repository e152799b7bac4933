-- ===== src/Process/Flips/Tests.antt =====
-- Runs of the flip generator.
use idena_test_go.Prelude.{
  ℕ, zero, suc, ap, ltb, if◌then◌else◌, ◌-◌, ◌%◌, ◌≡◌, refl, ◌<◌, ◌≤◌, ◌*◌, ◌/◌, ◌+◌, true, [], ◌∷◌,
  some, Bytes, codes, length, arith,
}
use idena_test_go.Prelude.Result.{ok, panic, division_by_zero}
use idena_test_go.Process.Flips.{generate_flip, encode, digit_of, to_hex, assert_flip, Flip}
use idena_test_go.Process.Flips.Sizes.{generate_flip_lem, AreBytes}

test_to_hex : to_hex (10 ∷ 255 ∷ []) ≡ codes "0x0aff"
unfolding to_hex
test_to_hex = refl

-- Sizes with equal halves are a division by zero.
test_sizes : generate_flip (λ n. some []) 7 4 5 ≡ panic division_by_zero
unfolding generate_flip
test_sizes = refl

-- A decoder of hexadecimal texts, as `FromHex` is documented.
abbrev digit_value : ℕ → ℕ
digit_value c = if ltb c b'a' then c - b'0' else c - b'a' + 10

decode : Bytes → Bytes
decode (hi ∷ lo ∷ s) = (digit_value hi * 16 + digit_value lo) ∷ decode s
decode s = []

decoded : Bytes → Bytes
decoded (zero_digit ∷ x ∷ s) = decode s
decoded s = []

digit_value-digit_of : (n : ℕ) → n < 16 → digit_value (digit_of n) ≡ n
digit_value-digit_of n h = ground arith

bytes_value : (b : ℕ) → b < 256 → b / 16 % 16 * 16 + b % 16 ≡ b
bytes_value b h = omega arith

decode-encode : (s : Bytes) → AreBytes s → decode (encode s) ≡ s
unfolding decode encode
decode-encode [] h = refl
decode-encode (b ∷ s) h =
    let byte : digit_value (digit_of (b / 16 % 16)) * 16 + digit_value (digit_of (b % 16)) ≡ b =
      rw
        (
          digit_value-digit_of (b / 16 % 16) (omega arith),
          digit_value-digit_of (b % 16) (omega arith),
        )
        (bytes_value b h.0) in
    rw (byte, decode-encode s h.1) refl

decoded-to_hex : (s : Bytes) → AreBytes s → decoded (to_hex s) ≡ s
unfolding decoded to_hex
decoded-to_hex s h = decode-encode s h

zeros : ℕ → Bytes
zeros zero = []
zeros (suc n) = 0 ∷ zeros n

zeros_lem :
    (n : ℕ) → (bytes : Bytes) × (some (zeros n) ≡ some bytes) × (length bytes ≡ n) × AreBytes bytes
unfolding zeros
zeros_lem zero = ([], refl, refl, tt)
zeros_lem (suc n) =
    let (bytes, got, len, small) = zeros_lem n in (0 ∷ bytes, cc, ap suc len, (omega arith, small))

generate_flip_lem_example :
    (flip : Flip) × (generate_flip (λ n. some (zeros n)) 7 4 10 ≡ ok flip)
    × (assert_flip decoded flip ≡ true)
    × (length flip.private_hex ≡ length flip.public_hex)
    × (2 * (4 / 2) + 2 ≤ length flip.private_hex)
    × (length flip.private_hex < 2 * (10 / 2) + 2)
generate_flip_lem_example =
    generate_flip_lem (λ n. some (zeros n)) decoded 7 4 10 zeros_lem decoded-to_hex (omega arith)
