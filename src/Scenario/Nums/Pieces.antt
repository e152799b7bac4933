-- ===== src/Scenario/Nums/Pieces.antt =====
-- What `parseNums` of scenario/utils.go returns, whatever text it is given.
use idena_test_go.Prelude.{
  ℕ, ◌≡◌, ◌≢◌, refl, inl, inr, false, Option, none, some, List, [], ◌∷◌, ◌++◌, arith, Bytes, All,
  All-append, Bool-cases,
}
use idena_test_go.Prelude.Int.{ℤ, pos, negsuc, IsInt64, ◌≤ℤ◌}
use idena_test_go.Prelude.Result.{Result, ok, err, panic, >>=-eq-ok}
use idena_test_go.Scenario.Nums.{
  range_separator, rows_separator, contains, before, after, digits, positive, negative, atoi,
  checked, range, range_fuel, parse_row, parse_rows, parse_nums, split,
}
use idena_test_go.Scenario.Nums.Range.{IsIndex, range_loop-IsIndex}

abbrev pub Lacks : ℕ → Bytes → Type 0
Lacks b = All (λ c. c ≢ b)

before-Lacks : (s : Bytes) (sep : ℕ) → Lacks sep (before s sep)
unfolding before
before-Lacks [] sep = tt
before-Lacks (c ∷ s) sep = ground (arith, before-Lacks s sep)

contains-false-Lacks : (s : Bytes) (sep : ℕ) → contains s sep ≡ false → Lacks sep s
unfolding contains
contains-false-Lacks [] sep h = tt
contains-false-Lacks (c ∷ s) sep h = ground (arith, contains-false-Lacks s sep)

pub Lacks-contains : (s : Bytes) (sep : ℕ) → Lacks sep s → contains s sep ≡ false
unfolding contains
Lacks-contains [] sep h = refl
Lacks-contains (c ∷ s) sep h = ground (arith, Lacks-contains s sep)

positive-IsIndex : (o : Option ℕ) (z : ℤ) → positive o ≡ some z → IsIndex z
positive-IsIndex none z h = cc
positive-IsIndex (some n) z h = ground arith

negative-IsInt64 : (o : Option ℕ) (z : ℤ) → negative o ≡ some z → IsInt64 z
negative-IsInt64 none z h = cc
negative-IsInt64 (some n) z h = ground arith

IsIndex-IsInt64 : (z : ℤ) → IsIndex z → IsInt64 z
IsIndex-IsInt64 z h = omega arith

atoi-IsInt64 : (s : Bytes) (z : ℤ) → atoi s ≡ some z → IsInt64 z
unfolding atoi
atoi-IsInt64 [] z h = cc
atoi-IsInt64 (c ∷ s) z h = ground (
  arith,
  negative-IsInt64 (digits s) z,
  positive-IsIndex (digits s) z,
  positive-IsIndex (digits (c ∷ s)) z,
)

atoi-IsIndex : (s : Bytes) (z : ℤ) → Lacks range_separator s → atoi s ≡ some z → IsIndex z
unfolding atoi
atoi-IsIndex [] z l h = cc
atoi-IsIndex (c ∷ s) z l h =
    ground (arith, positive-IsIndex (digits s) z, positive-IsIndex (digits (c ∷ s)) z)

checked-some : (o : Option ℤ) (z : ℤ) → checked o ≡ ok z → o ≡ some z
checked-some none z h = cc
checked-some (some n) z h = cc

range-IsIndex :
    (first last : ℤ) (xs : List ℤ)
    → IsIndex first
    → IsInt64 last
    → range first last ≡ ok xs
    → All IsIndex xs
unfolding range
range-IsIndex (pos a) last xs hf hl h =
    range_loop-IsIndex (range_fuel (pos a) last) a last xs (omega arith) hl h
range-IsIndex (negsuc a) last xs hf hl h = absurd (omega arith)

parse_row-IsIndex : (s : Bytes) (xs : List ℤ) → parse_row s ≡ ok xs → All IsIndex xs
unfolding parse_row
parse_row-IsIndex s xs h = elim (Bool-cases (contains s range_separator)) [
  | inl dash ↦
      let (first, ef, h1) =
        >>=-eq-ok (checked (atoi (before s range_separator))) _ (rw dash at h) in
      let (last, el, h2) = >>=-eq-ok (checked (atoi (after s range_separator))) _ h1 in
      range-IsIndex first last xs
        (atoi-IsIndex (before s range_separator) first (before-Lacks s range_separator)
          (checked-some _ first ef))
        (atoi-IsInt64 (after s range_separator) last (checked-some _ last el)) h2
  | inr plain ↦
      let (user, eu, h1) = >>=-eq-ok (checked (atoi s)) _ (rw plain at h) in
      let index : IsIndex user =
        atoi-IsIndex s user (contains-false-Lacks s range_separator plain)
          (checked-some _ user eu) in
      let e : xs ≡ user ∷ [] = cc in rw e (index, tt)
]

parse_rows-IsIndex : (rows : List Bytes) (xs : List ℤ) → parse_rows rows ≡ ok xs → All IsIndex xs
unfolding parse_rows
parse_rows-IsIndex [] xs h = let e : xs ≡ [] = cc in rw e tt
parse_rows-IsIndex (s ∷ rows) xs h =
    let (users, eu, h1) = >>=-eq-ok (parse_row s) _ h in
    let (rest, er, h2) = >>=-eq-ok (parse_rows rows) _ h1 in
    let e : xs ≡ users ++ rest = cc in
    rw e (
      All-append IsIndex users rest (parse_row-IsIndex s users eu)
        (parse_rows-IsIndex rows rest er))

-- Whatever the text is, every number of a list that `parseNums` returns is at least 0 and fits in
-- 64 bits: no negative epoch, node or user index comes out of it.
pub parse_nums-IsIndex : (s : Bytes) (xs : List ℤ) → parse_nums s ≡ ok xs → All IsIndex xs
unfolding parse_nums
parse_nums-IsIndex s xs h = parse_rows-IsIndex (split s rows_separator) xs h

abbrev pub listed : Result (List ℤ) → List ℤ
listed (ok xs) = xs
listed _ = []

-- The numbers that a text stands for, none if it is no list of numbers.
abbrev pub numbers_of : Bytes → List ℤ
numbers_of s = listed (parse_nums s)

listed-IsIndex :
    (r : Result (List ℤ)) → ((xs : List ℤ) → r ≡ ok xs → All IsIndex xs) → All IsIndex (listed r)
listed-IsIndex (ok xs) h = h xs refl
listed-IsIndex (err e) h = tt
listed-IsIndex (panic x) h = tt

pub All-nonneg : (xs : List ℤ) → All IsIndex xs → All (λ x. pos 0 ≤ℤ x) xs
All-nonneg [] h = tt
All-nonneg (x ∷ xs) h = (omega arith, All-nonneg xs h.1)

pub numbers_of-nonneg : (s : Bytes) → All (λ x. pos 0 ≤ℤ x) (numbers_of s)
numbers_of-nonneg s =
    All-nonneg (numbers_of s) (listed-IsIndex (parse_nums s) (λ xs h. parse_nums-IsIndex s xs h))
