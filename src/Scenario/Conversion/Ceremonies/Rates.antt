-- ===== src/Scenario/Conversion/Ceremonies/Rates.antt =====
-- scenario/internal.go: how many answers `AnswerRates.Get` gives.
use idena_test_go.Prelude.{
  ℕ, zero, suc, ◌+◌, ◌-◌, ◌<◌, ◌≡◌, refl, ap, ◌∙◌, ◌++◌, arith, length, length-append, leb,
  if◌then◌else◌,
}
use idena_test_go.Prelude.Int.{
  ℤ, pos, negsuc, sub_ℕ, pos_part, ◌+ℤ◌, ◌*ℤ◌, wrap64, wrap64_exact, int_limit, IsInt64,
}
use idena_test_go.Scenario.Model.{AnswerRates}
use idena_test_go.Scenario.Conversion.Ceremonies.{
  repeated, minus, get_answer_rates, left, right, inappropriate, none_answer,
}

length-repeated : (answer n : ℕ) → length (repeated answer n) ≡ n
unfolding repeated
length-repeated answer zero = refl
length-repeated answer (suc n) = ap suc (length-repeated answer n)

times_minus_one : (n : ℕ) → negsuc 0 *ℤ pos n ≡ sub_ℕ 0 n
unfolding ◌*ℤ◌
times_minus_one n = ground arith

sub_ℕ-sub_ℕ : (c l r : ℕ) → sub_ℕ c l +ℤ sub_ℕ 0 r ≡ sub_ℕ c (l + r)
unfolding ◌+ℤ◌
sub_ℕ-sub_ℕ c l r = ground arith

sub_ℕ-IsInt64 : (c l : ℕ) → c < int_limit → l < int_limit → IsInt64 (sub_ℕ c l)
sub_ℕ-IsInt64 c l hc hl = ground arith

minus_lem :
    (c l r : ℕ) → c < int_limit → l + r < int_limit → minus (sub_ℕ c l) (pos r) ≡ sub_ℕ c (l + r)
minus_lem c l r hc hl =
    ap (λ m. wrap64 (sub_ℕ c l +ℤ m)) (times_minus_one r)
    ∙ ap wrap64 (sub_ℕ-sub_ℕ c l r)
    ∙ wrap64_exact (sub_ℕ c (l + r)) (sub_ℕ-IsInt64 c (l + r) hc hl)

pos_part-sub_ℕ : (a b : ℕ) → pos_part (sub_ℕ a b) ≡ a - b
pos_part-sub_ℕ a b = ground arith

pos-sub_ℕ : (c : ℕ) → pos c ≡ sub_ℕ c 0
pos-sub_ℕ c = ground arith

zero-plus : (n : ℕ) → 0 + n ≡ n
zero-plus n = omega arith

none_left :
    (c l r i : ℕ)
    → c < int_limit
    → l + r + i < int_limit
    → pos_part (minus (minus (minus (pos c) (pos l)) (pos r)) (pos i)) ≡ c - (l + r + i)
none_left c l r i hc hs =
    ap (λ z. pos_part (minus (minus (minus z (pos l)) (pos r)) (pos i))) (pos-sub_ℕ c)
    ∙ ap (λ z. pos_part (minus (minus z (pos r)) (pos i)))
        (minus_lem c 0 l hc (omega arith) ∙ ap (sub_ℕ c) (zero-plus l))
    ∙ ap (λ z. pos_part (minus z (pos i))) (minus_lem c l r hc (omega arith))
    ∙ ap pos_part (minus_lem c (l + r) i hc hs)
    ∙ pos_part-sub_ℕ c (l + r + i)

length-parts :
    (l r i n : ℕ)
    → length
        (repeated left l ++ repeated right r ++ repeated inappropriate i ++ repeated none_answer n)
      ≡ l + r + i + n
length-parts l r i n =
    rw
      (
        length-append (repeated left l ++ repeated right r ++ repeated inappropriate i)
            (repeated none_answer n),
        length-append (repeated left l ++ repeated right r) (repeated inappropriate i),
        length-append (repeated left l) (repeated right r),
        length-repeated left l,
        length-repeated right r,
        length-repeated inappropriate i,
        length-repeated none_answer n,
      )
      refl

-- `AnswerRates.Get` gives `count` answers if the three rounded shares are at most that many together,
-- and else as many as the shares, which is more than it is asked for. The conditions: the count and the
-- sum of the shares are not negative and fit in 64 bits.
pub get_answer_rates_lem :
    {F : Type 0} (rounded : ℤ → F → ℤ) (rates : AnswerRates F) (count l r i : ℕ)
    → rounded (pos count) rates.left ≡ pos l
    → rounded (pos count) rates.right ≡ pos r
    → rounded (pos count) rates.inappropriate ≡ pos i
    → count < int_limit
    → l + r + i < int_limit
    → length (get_answer_rates rounded rates (pos count))
      ≡ (if leb (l + r + i) count then count else l + r + i)
unfolding get_answer_rates
get_answer_rates_lem rounded rates count l r i hl hr hi hc hs =
    rw (get_answer_rates, hl, hr, hi, none_left count l r i hc hs)
      (length-parts l r i (count - (l + r + i)) ∙ ground arith)
