-- ===== src/Prelude/Int.antt =====
-- Go's `int` and `int64`: integers over the native numbers, with the wrap-around of 64 bits.
use Prim.Native.Nat.{ℕ, suc, ◌+◌, ◌-◌, ◌*◌, ◌%◌, ◌≤◌, ◌<◌}
use mathlib.Core.Path.{◌≡◌, refl, sym, ap, ◌∙◌}
use mathlib.Core.Logic.{◌↔◌}
use mathlib.Core.Bool.{Bool, true, ◌&&◌}
use native.Mathlib.Omega.{arith}
use idena_test_go.Prelude.Tests.{ltb, leb, ◌==◌, if◌then◌else◌}

-- `negsuc n` is -(n + 1).
pub data ℤ : Type 0 where
  pos : ℕ → ℤ
  negsuc : ℕ → ℤ

abbrev pub pos_part : ℤ → ℕ
pos_part (pos n) = n
pos_part (negsuc n) = 0

abbrev pub neg_part : ℤ → ℕ
neg_part (pos n) = 0
neg_part (negsuc n) = suc n

-- a - b, as an integer.
abbrev pub sub_ℕ : ℕ → ℕ → ℤ
sub_ℕ a b = if leb b a then pos (a - b) else negsuc (b - a - 1)

infixl 65 ◌+ℤ◌
infixl 70 ◌*ℤ◌
infix 50 ◌≤ℤ◌ ◌<ℤ◌ ◌==ℤ◌
unfoldable pub ◌+ℤ◌ : ℤ → ℤ → ℤ
a +ℤ b = sub_ℕ (pos_part a + pos_part b) (neg_part a + neg_part b)

unfoldable pub ◌*ℤ◌ : ℤ → ℤ → ℤ
a *ℤ b =
    sub_ℕ (pos_part a * pos_part b + neg_part a * neg_part b)
      (pos_part a * neg_part b + neg_part a * pos_part b)

abbrev pub ◌≤ℤ◌ : ℤ → ℤ → Type 0
a ≤ℤ b = pos_part a + neg_part b ≤ pos_part b + neg_part a

abbrev pub ◌<ℤ◌ : ℤ → ℤ → Type 0
a <ℤ b = pos_part a + neg_part b < pos_part b + neg_part a

abbrev pub ltb_ℤ : ℤ → ℤ → Bool
ltb_ℤ a b = ltb (pos_part a + neg_part b) (pos_part b + neg_part a)

abbrev pub leb_ℤ : ℤ → ℤ → Bool
leb_ℤ a b = leb (pos_part a + neg_part b) (pos_part b + neg_part a)

abbrev pub ◌==ℤ◌ : ℤ → ℤ → Bool
a ==ℤ b = (pos_part a == pos_part b) && (neg_part a == neg_part b)

pub ==ℤ_iff : (a b : ℤ) → ((a ==ℤ b) ≡ true) ↔ (a ≡ b)
==ℤ_iff (pos a) (pos b) = ground arith
==ℤ_iff (pos a) (negsuc b) = ground arith
==ℤ_iff (negsuc a) (pos b) = ground arith
==ℤ_iff (negsuc a) (negsuc b) = ground arith

-- One lemma for an operation lets `omega` work with the operation shut.
pub +ℤ_parts :
    (a b : ℤ)
    → pos_part (a +ℤ b) + neg_part a + neg_part b ≡ neg_part (a +ℤ b) + pos_part a + pos_part b
unfolding ◌+ℤ◌
+ℤ_parts a b = ground arith

pub eq_of_parts : (a b : ℤ) → pos_part a + neg_part b ≡ pos_part b + neg_part a → a ≡ b
eq_of_parts (pos a) (pos b) h = ground arith
eq_of_parts (pos a) (negsuc b) h = ground arith
eq_of_parts (negsuc a) (pos b) h = ground arith
eq_of_parts (negsuc a) (negsuc b) h = ground arith

pub ruleset int_laws = (arith, +ℤ_parts, eq_of_parts)

-- The least 64-bit integer that is too large, 2^63, and the number of 64-bit patterns.
abbrev pub int_limit : ℕ
int_limit = 0x8000_0000_0000_0000

abbrev pub int_modulus : ℕ
int_modulus = 0x1_0000_0000_0000_0000

abbrev pub IsInt64 : ℤ → Type 0
IsInt64 z = (pos_part z < int_limit) × (neg_part z ≤ int_limit)

-- The residue of an integer modulo 2^64, and the signed number that a 64-bit pattern stands for.
abbrev pattern_of : ℤ → ℕ
pattern_of (pos n) = n % int_modulus
pattern_of (negsuc n) = int_modulus - 1 - n % int_modulus

abbrev signed : ℕ → ℤ
signed m = if ltb m int_limit then pos m else negsuc (int_modulus - 1 - m)

-- An exact result, reduced to the 64 bits of Go's `int`, `int64` and `time.Duration`.
unfoldable pub wrap64 : ℤ → ℤ
wrap64 z = signed (pattern_of z)

pub wrap64_exact : (z : ℤ) → IsInt64 z → wrap64 z ≡ z
unfolding wrap64
wrap64_exact (pos n) h = ground arith
wrap64_exact (negsuc n) h = ground arith

pub wrap64-IsInt64 : (z : ℤ) → IsInt64 (wrap64 z)
unfolding wrap64
wrap64-IsInt64 (pos n) = ground arith
wrap64-IsInt64 (negsuc n) = ground arith

pub wrap64-wrap64_add : (a b : ℤ) → wrap64 (wrap64 a +ℤ b) ≡ wrap64 (a +ℤ b)
unfolding wrap64 ◌+ℤ◌
wrap64-wrap64_add (pos a) (pos b) = ground arith
wrap64-wrap64_add (pos a) (negsuc b) = ground arith
wrap64-wrap64_add (negsuc a) (pos b) = ground arith
wrap64-wrap64_add (negsuc a) (negsuc b) = ground arith

pub +ℤ_comm : (a b : ℤ) → a +ℤ b ≡ b +ℤ a
+ℤ_comm a b = omega int_laws

pub +ℤ_assoc : (a b c : ℤ) → (a +ℤ b) +ℤ c ≡ a +ℤ (b +ℤ c)
+ℤ_assoc a b c = omega int_laws

pub zero-+ℤ : (a : ℤ) → pos 0 +ℤ a ≡ a
zero-+ℤ a = omega int_laws

pub +ℤ-zero : (a : ℤ) → a +ℤ pos 0 ≡ a
+ℤ-zero a = omega int_laws

-- Two sums with the same first term modulo 2^64.
pub wrap64-add_left : (a b c : ℤ) → wrap64 a ≡ wrap64 b → wrap64 (a +ℤ c) ≡ wrap64 (b +ℤ c)
wrap64-add_left a b c h =
    sym (wrap64-wrap64_add a c) ∙ ap (λ x. wrap64 (x +ℤ c)) h ∙ wrap64-wrap64_add b c

pub wrap64-add_right : (c a b : ℤ) → wrap64 a ≡ wrap64 b → wrap64 (c +ℤ a) ≡ wrap64 (c +ℤ b)
wrap64-add_right c a b h = rw (+ℤ_comm c a, +ℤ_comm c b) (wrap64-add_left a b c h)

pub wrap64_idem : (a : ℤ) → wrap64 (wrap64 a) ≡ wrap64 a
wrap64_idem a = wrap64_exact (wrap64 a) (wrap64-IsInt64 a)

pub +ℤ_interchange : (a b c d : ℤ) → (a +ℤ b) +ℤ (c +ℤ d) ≡ (a +ℤ c) +ℤ (b +ℤ d)
+ℤ_interchange a b c d = omega int_laws

pub nonneg-eq-pos : (z : ℤ) → pos 0 ≤ℤ z → z ≡ pos (pos_part z)
nonneg-eq-pos (pos n) h = refl
nonneg-eq-pos (negsuc n) h = absurd (omega arith)
