-- ===== src/Scenario/Nums.antt =====
-- scenario/utils.go: the lists of numbers, as in "1,3-5,8". Texts are lists of bytes. What the code
-- uses of the packages strings and strconv is written out: Split, SplitN and Contains for a
-- separator of one byte, and Atoi for the 64-bit int.
pub mod Pieces
pub mod RoundTrip
pub mod Range
mod Tests
use idena_test_go.Prelude.{
  ℕ, zero, suc, ◌+◌, ◌-◌, ◌*◌, Bool, true, false, ◌||◌, ◌&&◌, List, [], ◌∷◌, ◌++◌, Option, none,
  some, Bytes, ltb, leb, ◌==◌, if◌then◌else◌,
}
use idena_test_go.Prelude.Int.{ℤ, pos, pos_part, ◌+ℤ◌, leb_ℤ, sub_ℕ, wrap64, int_limit, neg_part}
use idena_test_go.Prelude.Result.{Result, ok, err, panic, ◌>>=◌, bad_number, endless_loop}

abbrev pub rows_separator : ℕ
rows_separator = b','

abbrev pub range_separator : ℕ
range_separator = b'-'

abbrev push_byte : ℕ → List Bytes → List Bytes
push_byte c [] = (c ∷ []) ∷ []
push_byte c (p ∷ ps) = (c ∷ p) ∷ ps

-- `strings.Split(s, sep)`
unfoldable pub split : Bytes → ℕ → List Bytes
split [] sep = [] ∷ []
split (c ∷ s) sep = let parts = split s sep in if c == sep then [] ∷ parts else push_byte c parts

-- `strings.Contains(s, sep)`
pub contains : Bytes → ℕ → Bool
contains [] sep = false
contains (c ∷ s) sep = c == sep || contains s sep

-- The two elements of `strings.SplitN(s, sep, 2)`, for a text that contains the separator.
pub before : Bytes → ℕ → Bytes
before [] sep = []
before (c ∷ s) sep = if c == sep then [] else c ∷ before s sep

pub after : Bytes → ℕ → Bytes
after [] sep = []
after (c ∷ s) sep = if c == sep then s else after s sep

scan : Bytes → ℕ → Option ℕ
scan [] total = some total
scan (digit ∷ rest) total =
    let next = total * 10 + (digit - b'0') in
    let number = scan rest next in if leb b'0' digit && leb digit b'9' then number else none

digits : Bytes → Option ℕ
unfolding scan
digits [] = none
digits (c ∷ s) = scan (c ∷ s) 0

abbrev positive : Option ℕ → Option ℤ
positive none = none
positive (some n) = if ltb n int_limit then some (pos n) else none

abbrev negative : Option ℕ → Option ℤ
negative none = none
negative (some n) = if leb n int_limit then some (sub_ℕ 0 n) else none

-- `strconv.Atoi`: an optional sign, then decimal digits, in the range of 64 bits.
pub atoi : Bytes → Option ℤ
unfolding digits
atoi [] = none
atoi (c ∷ s) =
    if c == b'-'
    then negative (digits s)
    else if c == b'+'
    then positive (digits s)
    else positive (digits (c ∷ s))

-- The call of `Atoi` and `if err != nil { return []int{}, err }`.
abbrev checked : Option ℤ → Result ℤ
checked none = err bad_number
checked (some n) = ok n

abbrev pub cons_ok : ℤ → Result (List ℤ) → Result (List ℤ)
cons_ok x rest = do xs ← rest; ok (x ∷ xs)

-- `for user := first; user <= last; user++`, with `user++` on 64 bits.
unfoldable pub range_loop : ℕ → ℤ → ℤ → Result (List ℤ)
range_loop zero user last = panic endless_loop
range_loop (suc fuel) user last =
    let rest = range_loop fuel (wrap64 (user +ℤ pos 1)) last in
    if leb_ℤ user last then cons_ok user rest else ok []

-- One round more than the numbers from `first` to `last`.
abbrev pub range_fuel : ℤ → ℤ → ℕ
range_fuel first last =
    suc (suc ((pos_part last + neg_part first) - (pos_part first + neg_part last)))

pub range : ℤ → ℤ → Result (List ℤ)
unfolding range_loop wrap64 ◌+ℤ◌
range first last = range_loop (range_fuel first last) first last

-- What one round of the loop over the rows appends.
pub parse_row : Bytes → Result (List ℤ)
unfolding atoi contains before after range
parse_row s =
    if contains s range_separator
    then (do
      first ← checked (atoi (before s range_separator))
      last ← checked (atoi (after s range_separator))
      range first last)
    else (do user ← checked (atoi s); ok (user ∷ []))

pub parse_rows : List Bytes → Result (List ℤ)
unfolding parse_row
parse_rows [] = ok []
parse_rows (s ∷ rows) = do users ← parse_row s; rest ← parse_rows rows; ok (users ++ rest)

-- `parseNums`
unfoldable pub parse_nums : Bytes → Result (List ℤ)
unfolding split parse_rows
parse_nums users_str = parse_rows (split users_str rows_separator)
