-- ===== src/Scenario/Nums/Range.antt =====
-- The loop of scenario/utils.go that lists a range: where it ends, and where it does not.
use idena_test_go.Prelude.{
  ℕ, zero, suc, ◌+◌, ◌-◌, ◌<◌, ◌≡◌, refl, inl, inr, List, [], ◌∷◌, arith, All, Bool-cases,
}
use native.Mathlib.Decide.{dec_lt}
use idena_test_go.Prelude.Int.{
  ℤ, pos, pos_part, neg_part, ◌+ℤ◌, leb_ℤ, wrap64, wrap64_exact, wrap64-IsInt64, int_limit, IsInt64,
  ◌≤ℤ◌, eq_of_parts,
}
use idena_test_go.Prelude.Result.{Result, ok, err, panic, endless_loop}
use idena_test_go.Scenario.Nums.{range_loop, range_fuel, cons_ok, range}

-- `n` consecutive numbers from `a` on.
abbrev pub consecutive : ℕ → ℕ → List ℤ
consecutive a zero = []
consecutive a (suc n) = pos a ∷ consecutive (a + 1) n

-- A number that a list of numbers may hold: neither negative nor past the 64-bit range.
abbrev pub IsIndex : ℤ → Type 0
IsIndex z = (neg_part z ≡ 0) × (pos_part z < int_limit)

pos-suc : (a : ℕ) → (pos a +ℤ pos 1) ≡ pos (a + 1)
unfolding ◌+ℤ◌
pos-suc a = ground arith

next_lem : (a : ℕ) → a + 1 < int_limit → wrap64 (pos a +ℤ pos 1) ≡ pos (a + 1)
next_lem a h = rw pos-suc (wrap64_exact (pos (a + 1)) (omega arith))

range_loop_lem :
    (n fuel a b : ℕ)
    → b + 1 < int_limit
    → n ≡ b + 1 - a
    → n < fuel
    → range_loop fuel (pos a) (pos b) ≡ ok (consecutive a n)
unfolding range_loop
range_loop_lem n zero a b hb hn hf = absurd (omega arith)
range_loop_lem zero (suc fuel) a b hb hn hf = ground arith
range_loop_lem (suc n) (suc fuel) a b hb hn hf =
    ground (arith, next_lem a, range_loop_lem n fuel (a + 1) b)

-- The range from `a` to `b` is the numbers from `a` to `b`, and none if `b` is less than `a`.
pub range_lem :
    (a b : ℕ) → b + 1 < int_limit → range (pos a) (pos b) ≡ ok (consecutive a (b + 1 - a))
unfolding range
range_lem a b h = range_loop_lem (b + 1 - a) (range_fuel (pos a) (pos b)) a b h refl (ground arith)

-- With the largest 64-bit integer as its end the loop never ends, however long it runs.
pub range_loop_endless :
    (fuel : ℕ) (user : ℤ)
    → IsInt64 user
    → range_loop fuel user (pos (int_limit - 1)) ≡ panic endless_loop
unfolding range_loop
range_loop_endless zero user h = refl
range_loop_endless (suc fuel) user h =
    ground (arith, range_loop_endless fuel (wrap64 (user +ℤ pos 1)), wrap64-IsInt64 (user +ℤ pos 1))

cons_ok-IsIndex :
    (x : ℤ) (r : Result (List ℤ)) {xs : List ℤ}
    → IsIndex x
    → ((ys : List ℤ) → r ≡ ok ys → All IsIndex ys)
    → cons_ok x r ≡ ok xs
    → All IsIndex xs
cons_ok-IsIndex x (ok ys) {xs} hx rest h = let e : xs ≡ x ∷ ys = cc in rw e (hx, rest ys refl)
cons_ok-IsIndex x (err e) hx rest h = cc
cons_ok-IsIndex x (panic f) hx rest h = cc

-- One step from a user: the next user is in range, or the loop does not end.
next-IsIndex :
    (fuel a : ℕ) (last : ℤ) (ys : List ℤ)
    → a < int_limit
    → IsInt64 last
    → pos a ≤ℤ last
    → ((b : ℕ) → b < int_limit → range_loop fuel (pos b) last ≡ ok ys → All IsIndex ys)
    → range_loop fuel (wrap64 (pos a +ℤ pos 1)) last ≡ ok ys
    → All IsIndex ys
next-IsIndex fuel a last ys ha hl le ih h = elim (dec_lt (a + 1) int_limit) [
  | yes small ↦ ih (a + 1) small (rw (next_lem a small) at h)
  | no large ↦
      let e : last ≡ pos (int_limit - 1) = eq_of_parts last (pos (int_limit - 1)) (omega arith) in
      let stuck : range_loop fuel (wrap64 (pos a +ℤ pos 1)) last ≡ panic endless_loop =
        rw e (range_loop_endless fuel _ (wrap64-IsInt64 _)) in
      cc (stuck, h)
]

pub range_loop-IsIndex :
    (fuel a : ℕ) (last : ℤ) (xs : List ℤ)
    → a < int_limit
    → IsInt64 last
    → range_loop fuel (pos a) last ≡ ok xs
    → All IsIndex xs
unfolding range_loop
range_loop-IsIndex zero a last xs ha hl h = cc
range_loop-IsIndex (suc fuel) a last xs ha hl h = elim (Bool-cases (leb_ℤ (pos a) last)) [
  | inl more ↦
      cons_ok-IsIndex (pos a) (range_loop fuel (wrap64 (pos a +ℤ pos 1)) last) (refl, ha)
        (λ ys e.
          next-IsIndex fuel a last ys ha hl (ground arith)
            (λ b hb. range_loop-IsIndex fuel b last ys hb hl) e)
        (rw more at h)
  | inr done ↦ let e : xs ≡ [] = ground arith in rw e tt
]
