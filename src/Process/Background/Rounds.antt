-- ===== src/Process/Background/Rounds.antt =====
-- process/background.go: the users send in turn.
use idena_test_go.Prelude.{
  ℕ, zero, suc, ◌%◌, ◌≤◌, ◌<◌, ◌≡◌, inl, inr, refl, sym, ap, ◌∙◌, true, false, List, [], ◌∷◌, some,
  Bytes, length, get_elem?, ltb, if◌then◌else◌, arith, Bool-cases, ◌==◌, ==_iff,
}
use native.Mathlib.Nat.{mod-lt, mod-eq_of_lt, mod_self, suc-mod, zero-mod}
use idena_test_go.Prelude.Int.{ℤ, pos, negsuc, ◌+ℤ◌, ◌==ℤ◌, int_laws}
use idena_test_go.Prelude.Dict.{Dict, lookup}
use idena_test_go.Prelude.Result.{ok, index}
use idena_test_go.Scenario.Model.{Txs}
use idena_test_go.Process.Background.{
  User, filter_active_users, next_index, Transfer, generate_loop, generate_txs,
}

plus_one : (n : ℕ) → pos n +ℤ pos 1 ≡ pos (suc n)
plus_one n = omega int_laws

last_index : (size : ℕ) → (if pos size ==ℤ pos size then pos 0 else pos size) ≡ pos (size % size)
last_index size = let same : (size == size) ≡ true = ground arith in rw (same, mod_self size) refl

-- The next index is the next remainder.
next_of : (size k : ℕ) → k < size → next_index size (pos k) ≡ pos (suc k % size)
next_of size k below = elim (Bool-cases (suc k == size)) [
  | inl e ↦
      let last : suc k ≡ size = (==_iff (suc k) size).0 e in rw (plus_one k, last) (last_index size)
  | inr e ↦
      let inside : suc k < size = ground (arith, e) in rw (plus_one k, e, mod-eq_of_lt inside) refl
]

-- The address of the user at an index.
abbrev pub address_at : List User → ℕ → Bytes
address_at [] i = []
address_at (u ∷ users) zero = u.address
address_at (u ∷ users) (suc i) = address_at users i

user_at :
    (users : List User) (i : ℕ)
    → i < length users
    → (u : User) × (get_elem? users i ≡ some u) × (u.address ≡ address_at users i)
user_at [] i h = absurd (omega arith)
user_at (u ∷ users) zero h = (u, refl, refl)
user_at (u ∷ users) (suc i) h = user_at users i (omega arith)

index_at :
    (users : List User) (i : ℕ)
    → i < length users
    → (u : User) × (index users (pos i) ≡ ok u) × (u.address ≡ address_at users i)
index_at users i h = let (u, e, a) = user_at users i h in (u, rw (index, e) refl, a)

-- The transactions of the turns from the `i`-th on: each user sends to the next one, in a circle.
abbrev pub turns : List User → (rounds i : ℕ) → List Transfer
turns users zero i = []
turns users (suc n) i =
    (address_at users (i % length users), address_at users (suc i % length users))
    ∷ turns users n (suc i)

same_transfer :
    (a a' b b' : Bytes) (rest : List Transfer)
    → a ≡ a'
    → b ≡ b'
    → ok ((a, b) ∷ rest) ≡ ok ((a', b') ∷ rest)
same_transfer a a' b b' rest h k = rw (h, k) refl

generate_loop-turns :
    (users : List User) (n i : ℕ) (idx : ℤ)
    → 0 < length users
    → next_index (length users) idx ≡ pos (i % length users)
    → generate_loop users n idx ≡ ok (turns users n i)
unfolding generate_loop
generate_loop-turns users zero i idx some_users next = refl
generate_loop-turns users (suc n) i idx some_users next =
    let size = length users in
    let now_below = mod-lt i some_users in
    let next_below = mod-lt (suc i) some_users in
    let after_next : next_index size (pos (i % size)) ≡ pos (suc i % size) =
      next_of size (i % size) now_below ∙ ap pos (sym (suc-mod i size)) in
    let (u, eu, au) = index_at users (i % size) now_below in
    let (v, ev, av) = index_at users (suc i % size) next_below in
    let rest = generate_loop-turns users n (suc i) (pos (i % size)) some_users after_next in
    rw (next, after_next, eu, ev, rest) (same_transfer _ _ _ _ (turns users n (suc i)) au av)

-- With two active users or more among those that the scenario names for the epoch, each of the transactions
-- that a process sends while an epoch lasts goes from one of them to the next, in their order and in a
-- circle, and the first is from the first of them; there is one for each round.
pub generate_txs-turns :
    (epoch_txs : Dict Txs) (test_index : ℤ) (users active : List User) (txs : Txs) (rounds : ℕ)
    → lookup test_index epoch_txs ≡ some txs
    → filter_active_users users txs.users ≡ ok active
    → 2 ≤ length active
    → generate_txs epoch_txs test_index users rounds ≡ ok (turns active rounds 0)
unfolding generate_txs
generate_txs-turns epoch_txs test_index users active txs rounds found filtered enough =
    let more : ltb (length active) 2 ≡ false = ground arith in
    let first : next_index (length active) (negsuc 0) ≡ pos (0 % length active) =
      let some_active : (0 == length active) ≡ false = ground arith in
      rw (some_active, zero-mod (length active)) refl in
    rw (generate_txs, found, filtered, more)
      (generate_loop-turns active rounds 0 (negsuc 0) (omega arith) first)
