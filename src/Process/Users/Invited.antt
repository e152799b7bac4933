-- ===== src/Process/Users/Invited.antt =====
-- process/process.go: which users are started and invited when new users are created.
use mathlib.Core.Path.{subst}
use idena_test_go.Prelude.{
  ℕ, zero, suc, ◌+◌, ◌-◌, ◌≡◌, refl, sym, ap, ◌∙◌, Bool, true, false, ◌&&◌, List, [], ◌∷◌, ◌++◌,
  Option, Bytes, length, length-append, take, drop, append-nil, leb, ◌==◌, arith, if◌then◌else◌,
}
use idena_test_go.Prelude.Int.{ℤ, pos, negsuc, ◌+ℤ◌}
use idena_test_go.Prelude.Result.{Result, ok, ◌>>=◌}
use idena_test_go.Process.Users.{Settings, ProcessUser, Users}
use idena_test_go.Process.Users.Chosen.{slice, create_if, chosen, create_and_choose, new_users}
use idena_test_go.Process.Users.Numbers.{IsNumbered, create_users-IsNumbered, IsThere}

take-all : {A : Type 0} (xs : List A) → take (length xs) xs ≡ xs
take-all [] = refl
take-all (x ∷ xs) = ap (λ l. x ∷ l) (take-all xs)

drop-append : {A : Type 0} (xs ys : List A) → drop (length xs) (xs ++ ys) ≡ ys
drop-append [] ys = refl
drop-append (x ∷ xs) ys = drop-append xs ys

-- The new users behind the others.
pub slice-append :
    {A : Type 0} (xs ys : List A) (high : ℕ)
    → high ≡ length xs + length ys
    → slice (xs ++ ys) (length xs) (pos high) ≡ ok ys
unfolding slice
slice-append xs ys high e =
    let inside : (leb (length xs) high && leb high (length (xs ++ ys))) ≡ true =
      ground (arith, length-append xs ys) in
    let many : high - length xs ≡ length ys = omega arith in
    rw inside (
      ap (λ n. ok (take n (drop (length xs) (xs ++ ys)))) many
      ∙ ap (λ l. ok (take (length ys) l)) (drop-append xs ys)
      ∙ ap ok (take-all ys))

alone_god : (god_mode : Bool) (n : ℕ) → (god_mode && n == 1) ≡ true → n ≡ 1
alone_god god_mode n h = ground arith

-- The whole slice.
slice-all :
    {A : Type 0} (xs : List A) (low high : ℕ)
    → low ≡ 0
    → high ≡ length xs
    → slice xs low (pos high) ≡ ok xs
slice-all xs low high none_before e =
    ap (λ n. slice xs n (pos high)) none_before ∙ slice-append [] xs high (omega arith)

pos-add : (a b : ℕ) → pos a +ℤ pos b ≡ pos (a + b)
unfolding ◌+ℤ◌
pos-add a b = let low : leb (0 + 0) (a + b) ≡ true = ground arith in rw low (ap pos (omega arith))

minus-one : (n : ℕ) → pos (suc n) +ℤ negsuc 0 ≡ pos n
unfolding ◌+ℤ◌
minus-one n = let low : leb 1 (suc n + 0) ≡ true = ground arith in rw low (ap pos (omega arith))

module _ (s : Settings) where
  abbrev pub Invited :
      (exclude : Bool)
      → (n : ℕ) → Users
      → Result (Users × (List ProcessUser × List ProcessUser))
      → Type 0
  Invited exclude n state result =
      (after : Users) × (to_start : List ProcessUser) × (users : List ProcessUser) × (result
        ≡ ok (after, (to_start, users)))
      × (after.users ≡ state.users ++ to_start)
      × (length users ≡ n)
      × (users ≡ (if exclude then after.users else to_start))

  -- Some new users, or none.
  create_if-Grows :
      (n : ℕ) (command : Bytes) (shared : Option ℤ) (state : Users)
      → IsNumbered s 0 state.users
      → IsThere s shared state
      → (new : List ProcessUser) × (after : Users) × (create_if s (pos n) command shared state
          ≡ ok after)
        × (after.users ≡ state.users ++ new)
        × (length new ≡ n)
        × IsNumbered s 0 after.users
  unfolding create_if
  create_if-Grows zero command shared state h there =
      ([], state, refl, sym (append-nil state.users), refl, h)
  create_if-Grows (suc n) command shared state h there =
      create_users-IsNumbered s (suc n) command shared state h there

  to_start-new :
      (n : ℕ) (state after : Users) (new : List ProcessUser)
      → after.users ≡ state.users ++ new
      → length new ≡ n
      → slice after.users (length state.users) (pos (length state.users) +ℤ pos n) ≡ ok new
  to_start-new n state after new grown count =
      ap (slice after.users (length state.users)) (pos-add (length state.users) n)
      ∙ ap (λ l. slice l (length state.users) (pos (length state.users + n))) grown
      ∙ slice-append state.users new (length state.users + n) (omega arith)

  chosen-Invited :
      (exclude : Bool) (n : ℕ) (state after : Users) (new : List ProcessUser)
      → after.users ≡ state.users ++ new
      → length new ≡ n
      → (exclude ≡ true → length state.users ≡ 1)
      → Invited exclude
          (if exclude then suc n else n)
          state
          (chosen exclude (length state.users) (pos n) after)
  unfolding chosen
  chosen-Invited false n state after new grown count alone = (
    after,
    new,
    new,
    ap (λ r. r >>= (λ t. ok t >>= (λ u. ok (after, (t, u)))))
        (to_start-new n state after new grown count),
    grown,
    count,
    refl,
  )
  chosen-Invited true n state after new grown count alone =
      let all : length after.users ≡ length state.users + n =
        ap length grown ∙ omega (arith, length-append state.users new, count) in
      let one = alone refl in
      (
        after,
        new,
        after.users,
        ap
              (λ r. r >>= (λ t.
                slice after.users (length state.users - 1) (pos (length state.users) +ℤ pos n)
                >>= (λ u. ok (after, (t, u)))))
              (to_start-new n state after new grown count)
            ∙ ap (λ h. slice after.users (length state.users - 1) h >>= (λ u. ok (after, (new, u))))
                (pos-add (length state.users) n)
            ∙ ap (λ r. r >>= (λ u. ok (after, (new, u))))
                (slice-all after.users (length state.users - 1) (length state.users + n)
                  (omega arith) (sym all)),
        grown,
        omega arith,
        refl,
      )

  -- `k` users are created behind the others, and the choice is made among them.
  created-Invited :
      (exclude : Bool) (k : ℕ) (count : ℤ) (command : Bytes) (shared : Option ℤ) (state : Users)
      → count ≡ pos k
      → IsNumbered s 0 state.users
      → IsThere s shared state
      → (exclude ≡ true → length state.users ≡ 1)
      → Invited exclude
          (if exclude then suc k else k)
          state
          (create_if s count command shared state >>= chosen exclude (length state.users) count)
  created-Invited exclude k count command shared state e h there alone =
      let (new, after, made, grown, size, numbered) =
        create_if-Grows k command shared state h there in
      subst
        (λ c.
          Invited exclude (if exclude then suc k else k) state
            (create_if s c command shared state >>= chosen exclude (length state.users) c))
        (sym e)
        (subst
          (λ r.
            Invited exclude (if exclude then suc k else k) state
              (r >>= chosen exclude (length state.users) (pos k)))
          (sym made) (chosen-Invited exclude k state after new grown size alone))

  choice-Invited :
      (exclude : Bool) (n : ℕ) (command : Bytes) (shared : Option ℤ) (state : Users)
      → IsNumbered s 0 state.users
      → IsThere s shared state
      → (exclude ≡ true → length state.users ≡ 1)
      → Invited exclude
          (suc n)
          state
          (create_and_choose s exclude (pos (suc n)) command shared state)
  unfolding create_and_choose
  choice-Invited false n command shared state h there alone =
      created-Invited false (suc n) (pos (suc n)) command shared state refl h there alone
  choice-Invited true n command shared state h there alone =
      created-Invited true n (pos (suc n) +ℤ negsuc 0) command shared state (minus-one n) h there
        alone

  -- When a positive number of new users is asked for, exactly that many get invites: in god mode with one user
  -- so far, which is the god user, all users, the one that was there first; in every other case the new
  -- ones, all of which are started. Those that are started stand behind the users that were there. The
  -- users are numbered before, and the node to share, if there is one, belongs to one of them.
  pub new_users_lem :
      (god_mode : Bool) (n : ℕ) (command : Bytes) (shared : Option ℤ) (state : Users)
      → IsNumbered s 0 state.users
      → IsThere s shared state
      → (after : Users) × (to_start : List ProcessUser) × (users : List ProcessUser) × (new_users s
            god_mode
            (pos (suc n))
            command
            shared
            state
          ≡ ok (after, (to_start, users)))
        × (after.users ≡ state.users ++ to_start)
        × (length users ≡ suc n)
        × (users ≡ (if god_mode && length state.users == 1 then after.users else to_start))
  unfolding new_users
  new_users_lem god_mode n command shared state h there =
      choice-Invited (god_mode && length state.users == 1) n command shared state h there
        (alone_god god_mode (length state.users))
