-- ===== src/Scenario/Nums/Tests.antt =====
-- The cases of scenario/scenario_test.go, and the theorems at concrete texts.
use mathlib.Core.List.{flat_map}
use idena_test_go.Prelude.{◌-◌, [], ◌∷◌, ◌≡◌, refl, arith, codes}
use idena_test_go.Prelude.Int.{pos, int_limit}
use idena_test_go.Prelude.Result.{ok, err, panic, bad_number, endless_loop}
use idena_test_go.Scenario.Nums.{parse_nums, range_loop}
use idena_test_go.Scenario.Nums.Range.{range_loop_endless}
use idena_test_go.Scenario.Nums.RoundTrip.{
  single, interval, row_numbers, rows_text, parse_nums-rows_text,
}

one_number : parse_nums (codes "1") ≡ ok (pos 1 ∷ [])
unfolding parse_nums
one_number = refl

some_numbers : parse_nums (codes "1,2,34") ≡ ok (pos 1 ∷ pos 2 ∷ pos 34 ∷ [])
unfolding parse_nums
some_numbers = refl

a_range : parse_nums (codes "1,2,5-7") ≡ ok (pos 1 ∷ pos 2 ∷ pos 5 ∷ pos 6 ∷ pos 7 ∷ [])
unfolding parse_nums
a_range = refl

repeated_numbers : parse_nums (codes "1,2,1-3") ≡ ok (pos 1 ∷ pos 2 ∷ pos 1 ∷ pos 2 ∷ pos 3 ∷ [])
unfolding parse_nums
repeated_numbers = refl

two_dashes : parse_nums (codes "1,2-3-4") ≡ err bad_number
unfolding parse_nums
two_dashes = refl

empty_range : parse_nums (codes "5-3") ≡ ok []
unfolding parse_nums
empty_range = refl

no_text : parse_nums [] ≡ err bad_number
unfolding parse_nums
no_text = refl

parse_nums-rows_text_example :
    parse_nums (rows_text (single (codes "1")) (interval (codes "3") (codes "5") ∷ []))
    ≡ ok (flat_map row_numbers (single (codes "1") ∷ interval (codes "3") (codes "5") ∷ []))
parse_nums-rows_text_example =
    parse_nums-rows_text (single (codes "1")) (interval (codes "3") (codes "5") ∷ []) (
      (cc, omega arith, omega arith),
      (((cc, omega arith, omega arith), (cc, omega arith, omega arith)), tt),
    )

range_loop_endless_example : range_loop 7 (pos 2) (pos (int_limit - 1)) ≡ panic endless_loop
range_loop_endless_example = range_loop_endless 7 (pos 2) (omega arith)
