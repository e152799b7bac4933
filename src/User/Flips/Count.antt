-- ===== src/User/Flips/Count.antt =====
-- user/user.go: how many flips a user has to make, and when the count panics.
use idena_test_go.Prelude.{
  ℕ, zero, suc, ◌+◌, ◌-◌, ◌%◌, ◌^◌, ◌≤◌, ◌<◌, ◌≡◌, refl, ap, ◌∙◌, ◌⊎◌, inl, inr, true, false, some,
  Bytes, get_elem?, length, get_elem-below, List, leb, arith,
}
use native.Mathlib.Nat.{mod-eq_of_lt, add-mod_right}
use native.Mathlib.Decide.{dec_lt}
use idena_test_go.Prelude.Int.{sub_ℕ}
use idena_test_go.Prelude.Result.{Result, ok, panic, index, index_out_of_range, ◌>>=◌}
use idena_test_go.User.{FlipWords}
use idena_test_go.User.Flips.{
  Identity, additional_flips, count_byte, add_flips, flips_count, flips_info, with_words,
}

-- The rounds after one that has read a byte.
abbrev next_rounds : (bits : ℕ) → Bytes → (n i count : ℕ) → ℕ → Result ℕ
next_rounds bits address n i count byte =
    add_flips bits address n (suc i) (count_byte bits byte count)

-- The byte of the address in round `i`.
byte_from_end :
    (address : Bytes) (i : ℕ)
    → leb (suc i) (length address) ≡ true
    → (byte : ℕ) × (get_elem? address (length address - suc i) ≡ some byte)
    → (byte : ℕ) × (index address (sub_ℕ (length address) (suc i)) ≡ ok byte)
byte_from_end address i fits (byte, found) = (byte, rw (fits, index, found) refl)

byte_at :
    (address : Bytes) (i : ℕ)
    → i < length address
    → (byte : ℕ) × (index address (sub_ℕ (length address) (suc i)) ≡ ok byte)
byte_at address i h =
    byte_from_end address i (ground arith)
      (get_elem-below address (length address - suc i) (omega arith))

no_byte_at :
    (address : Bytes) (i : ℕ)
    → length address ≤ i
    → index address (sub_ℕ (length address) (suc i)) ≡ panic index_out_of_range
no_byte_at address i h =
    let short : leb (suc i) (length address) ≡ false = ground arith in rw short refl

count_byte-step :
    (bits byte count : ℕ)
    → count + 1 < 2 ^ bits
    → (count ≤ count_byte bits byte count) × (count_byte bits byte count ≤ count + 1)
count_byte-step bits byte count h =
    let wraps : (count + 1) % 2 ^ bits ≡ count + 1 = mod-eq_of_lt h in ground (arith, wraps)

-- With enough bytes and no overflow every round adds one flip at most.
add_flips-bounds :
    (bits : ℕ) (address : Bytes) (n i count : ℕ)
    → i + n ≤ length address
    → count + n < 2 ^ bits
    → (total : ℕ) × (add_flips bits address n i count ≡ ok total)
      × (count ≤ total)
      × (total ≤ count + n)
unfolding add_flips
add_flips-bounds bits address zero i count h small = (count, refl, omega arith, omega arith)
add_flips-bounds bits address (suc n) i count h small =
    let (byte, found) = byte_at address i (omega arith) in
    let (low, high) = count_byte-step bits byte count (omega arith) in
    let (total, e, low', high') =
      add_flips-bounds bits address n (suc i) (count_byte bits byte count) (omega arith)
        (omega arith) in
    (total, ap (λ b. b >>= next_rounds bits address n i count) found ∙ e, omega arith, omega arith)

-- With more rounds than bytes the index is below zero in some round.
add_flips-panics :
    (bits : ℕ) (address : Bytes) (n i count : ℕ)
    → i ≤ length address
    → length address < i + n
    → add_flips bits address n i count ≡ panic index_out_of_range
unfolding add_flips
add_flips-panics bits address zero i count h long = absurd (omega arith)
add_flips-panics bits address (suc n) i count h long = elim (dec_lt i (length address)) [
  | yes below ↦
      let (byte, found) = byte_at address i below in
      ap (λ b. b >>= next_rounds bits address n i count) found
      ∙ add_flips-panics bits address n (suc i) (count_byte bits byte count) (omega arith)
          (omega arith)
  | no over ↦
      ap (λ b. b >>= next_rounds bits address n i count) (no_byte_at address i (omega arith))
]

-- The difference of the two numbers, where it does not wrap.
additional_flips-exact :
    (bits : ℕ) (identity : Identity)
    → identity.available_flips < 2 ^ bits
    → identity.required_flips ≤ identity.available_flips
    → additional_flips bits identity ≡ identity.available_flips - identity.required_flips
additional_flips-exact bits identity small ordered =
    let same : identity.available_flips + (2 ^ bits - identity.required_flips)
        ≡ (identity.available_flips - identity.required_flips) + 2 ^ bits =
      omega arith in
    ap (λ n. n % 2 ^ bits) same
    ∙ add-mod_right (identity.available_flips - identity.required_flips) (2 ^ bits)
    ∙ mod-eq_of_lt (omega arith)

-- A user that has to make at least `required_flips` and may make `available_flips` gets a count between the two,
-- less the flips that it has made, if its address has a byte for each flip that it may make beyond the
-- required ones; otherwise the count panics.
pub flips_info_lem :
    (bits : ℕ) (identity : Identity) (address : Bytes) (words : List FlipWords)
    → identity.available_flips < 2 ^ bits
    → identity.required_flips ≤ identity.available_flips
    → ((identity.available_flips - identity.required_flips ≤ length address)
        × (count : ℕ) × (identity.required_flips ≤ count)
        × (count ≤ identity.available_flips)
        × (flips_info bits identity address (ok words)
            ≡ ok (sub_ℕ count (length identity.flips), words)))
      ⊎ ((length address < identity.available_flips - identity.required_flips)
          × (flips_info bits identity address (ok words) ≡ panic index_out_of_range))
unfolding flips_info flips_count
flips_info_lem bits identity address words small ordered =
    let exact = additional_flips-exact bits identity small ordered in
    elim (dec_lt (length address) (additional_flips bits identity)) [
      | yes long ↦ inr (
        omega (arith, exact),
        ap (λ count. count >>= with_words identity (ok words))
            (add_flips-panics bits address (additional_flips bits identity) 0
              identity.required_flips (omega arith) (omega arith)),
      )
      | no short ↦
          let (count, e, low, high) =
            add_flips-bounds bits address (additional_flips bits identity) 0 identity.required_flips
              (omega arith) (omega (arith, exact)) in
          inl (
            omega (arith, exact),
            count,
            low,
            omega (arith, exact),
            ap (λ c. c >>= with_words identity (ok words)) e,
          )
    ]
