-- ===== src/Process/Hashes/Ends.antt =====
-- process/verification.go: when a user stops waiting for the flips of a session, and when it never does.
use idena_test_go.Prelude.{
  ℕ, zero, suc, ◌+◌, ◌≤◌, ◌<◌, ◌≡◌, ◌⊎◌, inl, inr, refl, sym, ap, ◌∙◌, Bool, true, false, List, [],
  ◌∷◌, some, length, if◌then◌else◌, arith, Bool-cases, Option-cases,
}
use idena_test_go.Prelude.Result.{Result, Fault, ok, panic, endless_loop, >>=-eq-ok}
use idena_test_go.Process.Answers.{FlipHash}
use idena_test_go.Process.Hashes.{
  Session, check_flip_hashes, is_acceptable, is_passed, strict_check, after_load, get_flip_hashes,
}
use idena_test_go.Process.Hashes.Accepted.{
  not_ready, enough, allowed_at, passed-acceptable, ok_injective, check_flip_hashes-accepted,
  check_flip_hashes-exact,
}

-- What the loop has ended with is one of the two answers of the last check, or that of the rest.
if_step :
    {A : Type 0} (b : Bool) (flips flips' : A) (rest : Result A)
    → (if b then ok flips else rest) ≡ ok flips'
    → ((b ≡ true) × (flips ≡ flips')) ⊎ (rest ≡ ok flips')
if_step true flips flips' rest h = inl (refl, ok_injective h)
if_step false flips flips' rest h = inr h

exited_ok : {A : Type 0} {a : A} {fault : Fault} → panic fault ≡ ok a → ⊥
exited_ok h = cc

-- The flips came from an attempt, and the check accepts them there.
abbrev pub Accepted : Session → List FlipHash → Type 0
Accepted s flips =
    (n : ℕ) × (s.load n ≡ some flips) × (1 ≤ length flips) × (not_ready flips ≤ allowed_at s n)

enough_none :
    (flips : List FlipHash) (allowed : ℕ) → enough flips allowed ≡ false → enough flips 0 ≡ false
enough_none [] allowed h = refl
enough_none (flip ∷ flips) allowed h = ground arith

module _ (s : Session) where
  strict_step :
      (at : ℕ) (flips flips' : List FlipHash) (rest : Result (List FlipHash))
      → s.load at ≡ some flips
      → (rest ≡ ok flips' → Accepted s flips')
      → strict_check s at flips rest ≡ ok flips'
      → Accepted s flips'
  unfolding strict_check
  strict_step at flips flips' rest loaded later h =
      let (c, e, v) =
        >>=-eq-ok (check_flip_hashes s.words_by_cid s.looks_up (s.words at false) flips 0)
          (λ c. if is_passed c then ok flips else rest) h in
      elim (if_step (is_passed c) flips flips' rest v) [
        | inr r ↦ later r
        | inl (p, same) ↦
            let (some_flips, none_missing) =
              check_flip_hashes-accepted s.words_by_cid (s.words at false) s.looks_up flips 0 c e
                (passed-acceptable c p) in
            rw (sym same) (at, loaded, some_flips, ground (arith, none_missing))
      ]

  late_step :
      (at : ℕ) (flips flips' : List FlipHash) (rest : Result (List FlipHash))
      → s.load at ≡ some flips
      → s.late at ≡ true
      → (rest ≡ ok flips' → Accepted s flips')
      → after_load s at rest (some flips) ≡ ok flips'
      → Accepted s flips'
  unfolding after_load
  late_step at flips flips' rest loaded late later h =
      let strict = strict_check s at flips rest in
      let (c, e, v) =
        >>=-eq-ok (check_flip_hashes s.words_by_cid s.looks_up (s.words at true) flips s.allowed)
          (λ c. if is_acceptable c then ok flips else strict) (rw late at h) in
      elim (if_step (is_acceptable c) flips flips' strict v) [
        | inr r ↦ strict_step at flips flips' rest loaded later r
        | inl (good, same) ↦
            let (some_flips, few) =
              check_flip_hashes-accepted s.words_by_cid (s.words at true) s.looks_up flips s.allowed
                c e good in
            rw (sym same) (at, loaded, some_flips, rw late few)
      ]

  -- What a user stops waiting with, in either session, is what the node gave at some attempt: there are
  -- flips, and as many of them as are allowed are not ready if the deadline was over then, else none.
  pub get_flip_hashes-Accepted :
      (fuel at : ℕ) (flips : List FlipHash)
      → get_flip_hashes s fuel at ≡ ok flips
      → Accepted s flips
  unfolding get_flip_hashes after_load
  get_flip_hashes-Accepted zero at flips h = cc
  get_flip_hashes-Accepted (suc fuel) at flips' h =
      let rest = get_flip_hashes s fuel (suc at) in
      let later : rest ≡ ok flips' → Accepted s flips' =
        get_flip_hashes-Accepted fuel (suc at) flips' in
      elim (Option-cases (s.load at)) [
        | inl n ↦ absurd (exited_ok (rw n at h))
        | inr (flips, l) ↦ elim (Bool-cases (s.late at)) [
          | inr early ↦ strict_step at flips flips' rest l later (rw (l, early) at h)
          | inl late ↦ late_step at flips flips' rest l late later (rw l at h)
        ]
      ]

  after_load-enough :
      (at : ℕ) (rest : Result (List FlipHash)) (flips : List FlipHash)
      → s.looks_up ≡ false
      → after_load s at rest (some flips)
        ≡ (if enough flips (allowed_at s at) then ok flips else rest)
  unfolding after_load strict_check
  after_load-enough at rest flips short =
      let (c, e, _, p) = check_flip_hashes-exact s.words_by_cid (s.words at false) flips 0 in
      let (d, f, a, _) = check_flip_hashes-exact s.words_by_cid (s.words at true) flips s.allowed in
      elim (Bool-cases (s.late at)) [
        | inr early ↦ rw (short, early, e, p) refl
        | inl late ↦ elim (Bool-cases (enough flips s.allowed)) [
          | inl y ↦ rw (late, short, f, a, y) refl
          | inr y ↦ rw (late, short, f, a, y, e, p, enough_none flips s.allowed y) refl
        ]
      ]

  -- In a session whose words are not looked up, an attempt ends the loop if it has enough flips.
  attempt :
      (fuel at : ℕ) (flips : List FlipHash)
      → s.looks_up ≡ false
      → s.load at ≡ some flips
      → get_flip_hashes s (suc fuel) at
        ≡ (if enough flips (allowed_at s at) then ok flips else get_flip_hashes s fuel (suc at))
  unfolding get_flip_hashes
  attempt fuel at flips short loaded =
      ap (after_load s at (get_flip_hashes s fuel (suc at))) loaded
      ∙ after_load-enough at (get_flip_hashes s fuel (suc at)) flips short

  -- The node gives flips at each of the `n` attempts from the `at`-th on, and never enough of them.
  abbrev pub TooFew : (n at : ℕ) → Type 0
  TooFew zero at = Unit
  TooFew (suc n) at =
      ((flips : List FlipHash) × (s.load at ≡ some flips)
        × (enough flips (allowed_at s at) ≡ false))
      × TooFew n (suc at)

  first_enough :
      (n fuel at : ℕ) (flips : List FlipHash)
      → s.looks_up ≡ false
      → TooFew n at
      → s.load (at + n) ≡ some flips
      → enough flips (allowed_at s (at + n)) ≡ true
      → n < fuel
      → get_flip_hashes s fuel at ≡ ok flips
  first_enough n zero at flips short few loaded good more = absurd (omega arith)
  first_enough zero (suc fuel) at flips short few loaded good more =
      let here : at + 0 ≡ at = omega arith in
      attempt fuel at flips short (ap s.load (sym here) ∙ loaded)
      ∙ rw (ap (λ i. enough flips (allowed_at s i)) (sym here) ∙ good) refl
  first_enough (suc n) (suc fuel) at flips short ((flips', l, bad), few) loaded good more =
      let later : suc at + n ≡ at + suc n = omega arith in
      attempt fuel at flips' short l
      ∙ rw bad (
          first_enough n fuel (suc at) flips short few (ap s.load later ∙ loaded)
            (ap (λ i. enough flips (allowed_at s i)) later ∙ good) (omega arith))

-- In a short session, and in any session of the first test, a user stops waiting at the first attempt
-- at which the node gives flips of which no more are missing than allowed then (none before the
-- deadline), with these flips, if the node gives flips at all attempts before. A fuel above the number of
-- these is enough.
pub get_flip_hashes-first :
    (s : Session) (n fuel : ℕ) (flips : List FlipHash)
    → s.looks_up ≡ false
    → TooFew s n 0
    → s.load n ≡ some flips
    → enough flips (allowed_at s n) ≡ true
    → n < fuel
    → get_flip_hashes s fuel 0 ≡ ok flips
get_flip_hashes-first s n fuel flips short few loaded good more =
    let here : n ≡ 0 + n = omega arith in
    first_enough s n fuel 0 flips short few (ap s.load (sym here) ∙ loaded)
      (ap (λ i. enough flips (allowed_at s i)) (sym here) ∙ good) more

-- While the node gives too few flips, a user in such a session waits on, whatever the fuel: also after
-- the deadline it neither stops nor exits.
pub get_flip_hashes-endless :
    (s : Session) (fuel at : ℕ)
    → s.looks_up ≡ false
    → ((i : ℕ)
        → (flips : List FlipHash) × (s.load i ≡ some flips)
          × (enough flips (allowed_at s i) ≡ false))
    → get_flip_hashes s fuel at ≡ panic endless_loop
unfolding get_flip_hashes
get_flip_hashes-endless s zero at short few = refl
get_flip_hashes-endless s (suc fuel) at short few =
    let (flips, l, bad) = few at in
    attempt s fuel at flips short l ∙ rw bad (get_flip_hashes-endless s fuel (suc at) short few)
