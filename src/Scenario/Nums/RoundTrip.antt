-- ===== src/Scenario/Nums/RoundTrip.antt =====
-- The format that scenario/incoming.go documents, "1,3-5,8" means 1,3,4,5,8: reading such a text.
use mathlib.Core.List.{foldl, flat_map}
use idena_test_go.Prelude.{
  ℕ, ◌+◌, ◌-◌, ◌*◌, ◌≤◌, ◌<◌, ◌≡◌, ◌≢◌, refl, true, some, List, [], ◌∷◌, ◌++◌, map, arith, Bytes,
  All, All-append,
}
use idena_test_go.Prelude.Int.{ℤ, pos, int_limit}
use idena_test_go.Prelude.Result.{ok}
use idena_test_go.Scenario.Nums.{
  rows_separator, range_separator, split, contains, before, after, scan, atoi, parse_row,
  parse_rows, parse_nums,
}
use idena_test_go.Scenario.Nums.Pieces.{Lacks, Lacks-contains}
use idena_test_go.Scenario.Nums.Range.{consecutive, range_lem}

abbrev pub IsDigit : ℕ → Type 0
IsDigit byte = (b'0' ≤ byte) × (byte ≤ b'9')

-- The number that digits spell behind `n`.
abbrev pub value : ℕ → Bytes → ℕ
value = foldl (λ total digit. total * 10 + (digit - b'0'))

-- A decimal number: one or more digits, leading zeros allowed, below the largest 64-bit integer.
abbrev pub IsDecimal : Bytes → Type 0
IsDecimal s = (s ≢ []) × All IsDigit s × (value 0 s + 1 < int_limit)

-- A row of the text: a number, or the two ends of a range.
pub data Row : Type 0 where
  single : Bytes → Row
  interval : Bytes → Bytes → Row

abbrev pub IsRow : Row → Type 0
IsRow (single n) = IsDecimal n
IsRow (interval a b) = IsDecimal a × IsDecimal b

abbrev pub row_text : Row → Bytes
row_text (single n) = n
row_text (interval a b) = a ++ range_separator ∷ b

-- The numbers that a row stands for: a range includes both ends.
abbrev pub row_numbers : Row → List ℤ
row_numbers (single n) = pos (value 0 n) ∷ []
row_numbers (interval a b) = consecutive (value 0 a) (value 0 b + 1 - value 0 a)

-- The rows with a comma between any two of them.
abbrev pub rows_text : Row → List Row → Bytes
rows_text r [] = row_text r
rows_text r (q ∷ rs) = row_text r ++ rows_separator ∷ rows_text q rs

scan_lem : (s : Bytes) (n : ℕ) → All IsDigit s → scan s n ≡ some (value n s)
unfolding scan
scan_lem [] n h = refl
scan_lem (c ∷ s) n h = ground (arith, scan_lem s (n * 10 + (c - b'0')) h.1)

atoi_lem : (s : Bytes) → IsDecimal s → atoi s ≡ some (pos (value 0 s))
unfolding atoi
atoi_lem [] h = absurd (h.0 refl)
atoi_lem (c ∷ s) h = ground (arith, scan_lem (c ∷ s) 0 h.1)

digits-Lacks : (b : ℕ) (s : Bytes) → b < b'0' → All IsDigit s → Lacks b s
digits-Lacks b [] h hs = tt
digits-Lacks b (c ∷ s) h hs = ground (arith, digits-Lacks b s h hs.1)

contains-append : (a b : Bytes) (sep : ℕ) → contains (a ++ sep ∷ b) sep ≡ true
unfolding contains
contains-append [] b sep = ground arith
contains-append (c ∷ a) b sep = ground (arith, contains-append a b sep)

before-append : (a b : Bytes) (sep : ℕ) → Lacks sep a → before (a ++ sep ∷ b) sep ≡ a
unfolding before
before-append [] b sep h = ground arith
before-append (c ∷ a) b sep h = ground (arith, before-append a b sep h.1)

after-append : (a b : Bytes) (sep : ℕ) → Lacks sep a → after (a ++ sep ∷ b) sep ≡ b
unfolding after
after-append [] b sep h = ground arith
after-append (c ∷ a) b sep h = ground (arith, after-append a b sep h.1)

parse_row_lem : (r : Row) → IsRow r → parse_row (row_text r) ≡ ok (row_numbers r)
unfolding parse_row
parse_row_lem (single n) h = rw (
  Lacks-contains n range_separator (digits-Lacks range_separator n (omega arith) h.1),
  atoi_lem n h,
)
parse_row_lem (interval a b) h =
    let lacks = digits-Lacks range_separator a (omega arith) h.0.1 in
    rw
      (
        contains-append a b range_separator,
        before-append a b range_separator lacks,
        after-append a b range_separator lacks,
        atoi_lem a h.0,
        atoi_lem b h.1,
      )
      (range_lem (value 0 a) (value 0 b) h.1.2)

row_text-Lacks : (r : Row) → IsRow r → Lacks rows_separator (row_text r)
row_text-Lacks (single n) h = digits-Lacks rows_separator n (omega arith) h.1
row_text-Lacks (interval a b) h =
    All-append _ a (range_separator ∷ b) (digits-Lacks rows_separator a (omega arith) h.0.1)
      (omega arith, digits-Lacks rows_separator b (omega arith) h.1.1)

pub split-Lacks : (p : Bytes) (sep : ℕ) → Lacks sep p → split p sep ≡ p ∷ []
unfolding split
split-Lacks [] sep h = refl
split-Lacks (c ∷ p) sep h = ground (arith, split-Lacks p sep h.1)

pub split-append :
    (p s : Bytes) (sep : ℕ) → Lacks sep p → split (p ++ sep ∷ s) sep ≡ p ∷ split s sep
unfolding split
split-append [] s sep h = ground arith
split-append (c ∷ p) s sep h = ground (arith, split-append p s sep h.1)

split-rows_text :
    (r : Row) (rs : List Row)
    → All IsRow (r ∷ rs)
    → split (rows_text r rs) rows_separator ≡ map row_text (r ∷ rs)
split-rows_text r [] h = split-Lacks (row_text r) rows_separator (row_text-Lacks r h.0)
split-rows_text r (q ∷ rs) h =
    rw (split-append (row_text r) (rows_text q rs) rows_separator (row_text-Lacks r h.0))
      (cc (split-rows_text q rs h.1))

parse_rows-map :
    (rs : List Row) → All IsRow rs → parse_rows (map row_text rs) ≡ ok (flat_map row_numbers rs)
unfolding parse_rows flat_map
parse_rows-map [] h = refl
parse_rows-map (r ∷ rs) h = rw (parse_row_lem r h.0, parse_rows-map rs h.1)

-- A text of one or more rows with commas between them, each a decimal number or a range `a-b` of
-- such numbers, all below the largest 64-bit integer, is read as the numbers of the rows in order,
-- where `a-b` stands for `a`, `a + 1`, …, `b`, and for nothing if `b` is less than `a`.
pub parse_nums-rows_text :
    (r : Row) (rs : List Row)
    → All IsRow (r ∷ rs)
    → parse_nums (rows_text r rs) ≡ ok (flat_map row_numbers (r ∷ rs))
unfolding parse_nums
parse_nums-rows_text r rs h = rw (split-rows_text r rs h) (parse_rows-map (r ∷ rs) h)
