-- ===== src/Scenario/Counts/Refinement.antt =====
-- The counts of scenario/validation.go, and the lookup of one, against the users that have joined.
use idena_test_go.Prelude.{
  ℕ, zero, suc, ◌+◌, ◌≤◌, ◌≡◌, sym, ◌∙◌, ap, Bool, true, false, List, ◌∷◌, ◌++◌, some, arith, ltb,
  if◌then◌else◌, inl, inr, Option-cases, get_elem?, length,
}
use idena_test_go.Prelude.Int.{
  ℤ, pos, pos_part, ◌+ℤ◌, ◌≤ℤ◌, leb_ℤ, ◌==ℤ◌, wrap64, wrap64-add_right, wrap64_idem, wrap64_exact,
  +ℤ_assoc, +ℤ-zero, zero-+ℤ, IsInt64, nonneg-eq-pos,
}
use idena_test_go.Prelude.Dict.{Dict, lookup}
use idena_test_go.Prelude.Result.{ok, >>=-eq-ok, each_with, index}
use idena_test_go.Scenario.Incoming.{NewUsers, IncomingScenario}
use idena_test_go.Scenario.Counts.{
  count_at, Tally, add_new_users, no_tally, first_count, later_counts, counts_of,
  build_epoch_user_counts, users_count,
}
use mathlib.Core.Path.{subst}
use native.Mathlib.Decide.{dec_lt}
use idena_test_go.Scenario.Counts.Users.{
  joined, AllEpochs, tally-count_at, tally-max_epoch, joined-suc, joined-zero, joined-above,
  later_counts_lem, length-later_counts,
}

index-suc :
    (x v : ℤ) (xs : List ℤ) (j : ℕ) → get_elem? xs j ≡ some v → index (x ∷ xs) (pos (suc j)) ≡ ok v
index-suc x v xs j h = ground arith

users_count_split :
    (counts : List ℤ) (m e : ℕ)
    → length counts ≡ suc m
    → users_count counts (pos e) ≡ index counts (pos (if ltb m e then m else e))
unfolding users_count ◌+ℤ◌
users_count_split counts m e h = rw h (ground arith)

first_count_lem :
    (users : ℤ) (m : Dict ℤ)
    → IsInt64 users
    → first_count users m ≡ wrap64 (users +ℤ count_at (pos 0) m)
unfolding first_count count_at
first_count_lem users m h = elim (Option-cases (lookup (pos 0) m)) [
  | inl absent ↦
      rw (absent, first_count, count_at) (rw (+ℤ-zero users) (sym (wrap64_exact users h)))
  | inr (c, found) ↦ rw (found, first_count, count_at)
]

module _ {F G : Type 0} (sc : IncomingScenario F G) where
  -- The users that the scenario starts with and those that join in an epoch or before it.
  abbrev pub users_by : ℤ → ℤ
  users_by epoch =
      sc.users +ℤ joined (λ e. leb_ℤ e epoch) (sc.new_users ++ sc.new_users_after_flips)

  module _ (t : Tally)
      (summed : each_with add_new_users (sc.new_users ++ sc.new_users_after_flips) no_tally ≡ ok t)
      (fits : IsInt64 sc.users) where
    abbrev all_users : List (NewUsers F)
    all_users = sc.new_users ++ sc.new_users_after_flips

    count_at_lem : (k : ℤ) → wrap64 (count_at k t.counts) ≡ wrap64 (joined (λ e. e ==ℤ k) all_users)
    unfolding count_at lookup
    count_at_lem k =
        tally-count_at k all_users no_tally t summed
        ∙ ap wrap64 (zero-+ℤ (joined (λ e. e ==ℤ k) all_users))

    grows_lem :
        (n : ℕ)
        → wrap64 (users_by (pos (n + 1)))
          ≡ wrap64 (users_by (pos n) +ℤ count_at (pos (n + 1)) t.counts)
    grows_lem n =
        let before = joined (λ e. leb_ℤ e (pos n)) all_users in
        let now = joined (λ e. e ==ℤ pos (n + 1)) all_users in
        ap (λ x. wrap64 (sc.users +ℤ x)) (joined-suc n all_users)
        ∙ ap wrap64 (sym (+ℤ_assoc sc.users before now))
        ∙ wrap64-add_right (sc.users +ℤ before) now (count_at (pos (n + 1)) t.counts)
            (sym (count_at_lem (pos (n + 1))))

    first_lem : first_count sc.users t.counts ≡ wrap64 (users_by (pos 0))
    first_lem =
        first_count_lem sc.users t.counts fits
        ∙ wrap64-add_right sc.users (count_at (pos 0) t.counts)
            (joined (λ e. e ==ℤ pos 0) all_users) (count_at_lem (pos 0))
        ∙ ap (λ x. wrap64 (sc.users +ℤ x)) (sym (joined-zero all_users))

    first-wrap64 : wrap64 (first_count sc.users t.counts) ≡ wrap64 (users_by (pos 0))
    first-wrap64 = ap wrap64 first_lem ∙ wrap64_idem (users_by (pos 0))

    index_lem :
        (i m : ℕ)
        → i ≤ m
        → (let first = first_count sc.users t.counts in
            index (first ∷ later_counts m 1 first t.counts) (pos i)
            ≡ ok (wrap64 (users_by (pos i))))
    index_lem zero m h = ap ok first_lem
    index_lem (suc j) m h =
        let shift : 0 + 1 + j ≡ suc j = omega arith in
        let first = first_count sc.users t.counts in
        index-suc first (wrap64 (users_by (pos (suc j)))) (later_counts m 1 first t.counts) j (
          later_counts_lem t.counts (λ n. users_by (pos n)) grows_lem m 0 j first h first-wrap64
          ∙ ap (λ n. some (wrap64 (users_by (pos n)))) shift)

    -- Where the looked-up epoch stands: at the last count, or before it.
    users_count_of :
        (m e : ℕ)
        → t.max_epoch ≡ pos m
        → (let first = first_count sc.users t.counts in
            users_count (first ∷ later_counts m 1 first t.counts) (pos e)
            ≡ ok (wrap64 (users_by (pos e))))
    users_count_of m e top =
        let first = first_count sc.users t.counts in
        let counts = first ∷ later_counts m 1 first t.counts in
        let split : users_count counts (pos e) ≡ index counts (pos (if ltb m e then m else e)) =
          users_count_split counts m e (ap suc (length-later_counts m 1 first t.counts)) in
        elim (dec_lt m e) [
          | yes past ↦
              let test : ltb m e ≡ true = ground arith in
              let above : joined (λ x. leb_ℤ x (pos e)) all_users
                  ≡ joined (λ x. leb_ℤ x (pos m)) all_users =
                joined-above (pos m) (pos e) all_users (omega arith) (
                  subst (λ b. AllEpochs (λ x. x ≤ℤ b) all_users) top
                    (tally-max_epoch all_users no_tally t summed).1) in
              split
              ∙ ap (λ (b : Bool). index counts (pos (if b then m else e))) test
              ∙ index_lem m m (omega arith)
              ∙ ap (λ x. ok (wrap64 (sc.users +ℤ x))) (sym above)
          | no within ↦
              let test : ltb m e ≡ false = ground arith in
              split
              ∙ ap (λ (b : Bool). index counts (pos (if b then m else e))) test
              ∙ index_lem e m (omega arith)
        ]

counts_of-eq-ok :
    (users : ℤ) (t : Tally) (counts : List ℤ)
    → counts_of users t ≡ ok counts
    → counts
      ≡ first_count users t.counts
        ∷ later_counts (pos_part t.max_epoch) 1 (first_count users t.counts) t.counts
unfolding counts_of
counts_of-eq-ok users t counts h = ground arith

-- The count that the validation looks up for an epoch, inside the list of counts or past its end,
-- is the number of users that the scenario starts with and adds in an epoch up to that one, once for
-- each time that an epoch is named, reduced to 64 bits. The conditions: the start fits in 64 bits,
-- and the list of counts is built.
pub users_count_lem :
    {F G : Type 0} (sc : IncomingScenario F G) (counts : List ℤ) (e : ℕ)
    → IsInt64 sc.users
    → build_epoch_user_counts sc ≡ ok counts
    → users_count counts (pos e) ≡ ok (wrap64 (users_by sc (pos e)))
unfolding build_epoch_user_counts
users_count_lem {F} {G} sc counts e fits built =
    let all : List (NewUsers F) = sc.new_users ++ sc.new_users_after_flips in
    let (t, summed, h) =
      >>=-eq-ok (each_with add_new_users all no_tally) (counts_of sc.users) built in
    let up : pos 0 ≤ℤ t.max_epoch = (tally-max_epoch all no_tally t summed).0 in
    let top : t.max_epoch ≡ pos (pos_part t.max_epoch) = nonneg-eq-pos t.max_epoch up in
    ap (λ c. users_count c (pos e)) (counts_of-eq-ok sc.users t counts h)
    ∙ users_count_of sc t summed fits (pos_part t.max_epoch) e top
