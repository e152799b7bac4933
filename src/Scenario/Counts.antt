-- ===== src/Scenario/Counts.antt =====
-- `buildEpochUserCounts` of scenario/validation.go: how many users there are in each epoch.
mod Sums
mod Users
pub mod Refinement
use idena_test_go.Prelude.{
  length, ℕ, zero, suc, ◌+◌, ◌-◌, ◌≡◌, Bool, true, false, List, [], ◌∷◌, ◌++◌, Option, none, some,
  arith, if◌then◌else◌, get_elem?,
}
use idena_test_go.Prelude.Int.{
  ℤ, pos, negsuc, pos_part, neg_part, ◌+ℤ◌, ltb_ℤ, ◌==ℤ◌, wrap64, int_limit,
}
use idena_test_go.Prelude.Result.{Result, ok, err, panic, ◌>>=◌, endless_loop, each_with, index}
use idena_test_go.Prelude.Dict.{Dict, lookup, insert}
use idena_test_go.Scenario.Incoming.{NewUsers, IncomingScenario}
use idena_test_go.Scenario.Nums.{parse_nums}

-- `nums, _ := parseNums(s)`: on an error the list is empty.
unfoldable pub ignore_error : Result (List ℤ) → Result (List ℤ)
ignore_error (ok xs) = ok xs
ignore_error (err e) = ok []
ignore_error (panic x) = panic x

-- `m[k]` of a `map[int]int`, which is 0 for a missing key.
pub count_at : ℤ → Dict ℤ → ℤ
count_at k m = elim (lookup k m) [ none ↦ pos 0 | some c ↦ c ]

-- The map of the counts by epoch, and the largest epoch so far.
pub record Tally : Type 0 where
  pub counts : Dict ℤ
  pub max_epoch : ℤ

pub add_epoch : ℤ → Tally → ℤ → Tally
unfolding count_at lookup insert wrap64 ◌+ℤ◌
add_epoch count t epoch = record {
  counts = insert epoch (wrap64 (count_at epoch t.counts +ℤ count)) t.counts;
  max_epoch = if ltb_ℤ t.max_epoch epoch then epoch else t.max_epoch;
}

pub add_epochs : ℤ → List ℤ → Tally → Tally
unfolding add_epoch
add_epochs count [] t = t
add_epochs count (epoch ∷ epochs) t = add_epochs count epochs (add_epoch count t epoch)

pub add_new_users : {F : Type 0} → NewUsers F → Tally → Result Tally
unfolding add_epochs ignore_error parse_nums
add_new_users u t = do epochs ← ignore_error (parse_nums u.epochs); ok (add_epochs u.count epochs t)

abbrev pub no_tally : Tally
no_tally = record { counts = []; max_epoch = pos 0 }

pub first_count : ℤ → Dict ℤ → ℤ
unfolding lookup wrap64 ◌+ℤ◌
first_count users m = elim (lookup (pos 0) m) [ none ↦ users | some c ↦ wrap64 (users +ℤ c) ]

-- `for i := 1; i <= maxEpoch; i++`, with the rounds left, the next epoch and the last count.
pub later_counts : ℕ → ℕ → ℤ → Dict ℤ → List ℤ
unfolding count_at wrap64 ◌+ℤ◌
later_counts zero i last m = []
later_counts (suc rounds) i last m =
    let next = wrap64 (last +ℤ count_at (pos i) m) in next ∷ later_counts rounds (i + 1) next m

-- The counts from epoch 0 to the largest epoch. At the largest integer `i <= maxEpoch` always holds.
pub counts_of : ℤ → Tally → Result (List ℤ)
unfolding first_count later_counts
counts_of users t =
    let first = first_count users t.counts in
    if t.max_epoch ==ℤ pos (int_limit - 1)
    then panic endless_loop
    else ok (first ∷ later_counts (pos_part t.max_epoch) 1 first t.counts)

unfoldable pub build_epoch_user_counts : {F G : Type 0} → IncomingScenario F G → Result (List ℤ)
unfolding add_new_users counts_of
build_epoch_user_counts sc = do
  t ← each_with add_new_users (sc.new_users ++ sc.new_users_after_flips) no_tally
  counts_of sc.users t

-- The number of users that `validateCeremony` looks up for an epoch: the last count if there is
-- none for it.
unfoldable pub users_count : List ℤ → ℤ → Result ℤ
unfolding ◌+ℤ◌
users_count counts max_epoch =
    let top = pos (length counts) +ℤ negsuc 0 in
    if ltb_ℤ top max_epoch then index counts top else index counts max_epoch
