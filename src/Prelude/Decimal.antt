-- ===== src/Prelude/Decimal.antt =====
-- `strconv.Itoa` and `%d` of Go's standard library on numbers that are not negative.
use Prim.Native.Nat.{◌<◌, ◌≤◌, ℕ, zero, suc, ◌+◌, ◌-◌, ◌*◌, ◌/◌, ◌%◌}
use mathlib.Core.Path.{◌≡◌, refl, sym, ap, ◌∙◌}
use mathlib.Core.List.{[], ◌∷◌, ◌++◌}
use native.Mathlib.Omega.{arith}
use idena_test_go.Prelude.Tests.{◌==◌, if◌then◌else◌}
use idena_test_go.Prelude.Lists.{Bytes, All}

-- The digits of a number in front of others, on fuel.
unfoldable pub digits_before : (fuel n : ℕ) → Bytes → Bytes
digits_before zero n out = out
digits_before (suc fuel) n out =
    let rest = digits_before fuel (n / 10) ((b'0' + n % 10) ∷ out) in
    if n / 10 == 0 then (b'0' + n % 10) ∷ out else rest

unfoldable pub itoa : ℕ → Bytes
unfolding digits_before
itoa n = digits_before (suc n) n []

-- The number that digits spell behind `n`.
abbrev pub spelled : ℕ → Bytes → ℕ
spelled n [] = n
spelled n (digit ∷ digits) = spelled (n * 10 + (digit - b'0')) digits

spelled-digits_before :
    (fuel n : ℕ) (out : Bytes) → n < fuel → spelled 0 (digits_before fuel n out) ≡ spelled n out
unfolding digits_before
spelled-digits_before zero n out h = absurd (omega arith)
spelled-digits_before (suc fuel) n out h =
    let last : 0 * 10 + (b'0' + n % 10 - b'0') ≡ n % 10 = omega arith in
    let whole : n / 10 * 10 + (b'0' + n % 10 - b'0') ≡ n = omega arith in
    ground (
      arith,
      spelled-digits_before fuel (n / 10) ((b'0' + n % 10) ∷ out),
      ap (λ m. spelled m out) last,
      ap (λ m. spelled m out) whole,
    )

-- Different numbers have different texts.
pub itoa_injective : (a b : ℕ) → itoa a ≡ itoa b → a ≡ b
unfolding itoa
itoa_injective a b e =
    sym (spelled-digits_before (suc a) a [] (omega arith))
    ∙ ap (spelled 0) e
    ∙ spelled-digits_before (suc b) b [] (omega arith)

abbrev pub IsDigit : ℕ → Type 0
IsDigit c = (b'0' ≤ c) × (c ≤ b'9')

digits_before-IsDigit :
    (fuel n : ℕ) (out : Bytes) → All IsDigit out → All IsDigit (digits_before fuel n out)
unfolding digits_before
digits_before-IsDigit zero n out h = h
digits_before-IsDigit (suc fuel) n out h =
    let longer : All IsDigit ((b'0' + n % 10) ∷ out) = ((omega arith, omega arith), h) in
    let rest = digits_before-IsDigit fuel (n / 10) ((b'0' + n % 10) ∷ out) longer in ground arith

pub itoa-IsDigit : (n : ℕ) → All IsDigit (itoa n)
unfolding itoa
itoa-IsDigit n = digits_before-IsDigit (suc n) n [] tt

-- The bytes before the first dash.
abbrev pub before_dash : Bytes → Bytes
before_dash [] = []
before_dash (c ∷ s) = if c == b'-' then [] else c ∷ before_dash s

before_dash-digits : (s rest : Bytes) → All IsDigit s → before_dash (s ++ b'-' ∷ rest) ≡ s
before_dash-digits [] rest h = refl
before_dash-digits (c ∷ s) rest h = ground (arith, before_dash-digits s rest h.1)

-- A number before a dash can be read back.
pub dashed_injective :
    (a b : ℕ) (rest rest' : Bytes) → itoa a ++ b'-' ∷ rest ≡ itoa b ++ b'-' ∷ rest' → a ≡ b
dashed_injective a b rest rest' e = itoa_injective a b (
    sym (before_dash-digits (itoa a) rest (itoa-IsDigit a))
    ∙ ap before_dash e
    ∙ before_dash-digits (itoa b) rest' (itoa-IsDigit b))
