-- ===== src/Process/Hashes/Accepted.antt =====
-- process/verification.go: which flips the check of the flips of a session accepts.
use idena_test_go.Prelude.{
  ℕ, zero, suc, ◌≤◌, ◌≡◌, inl, inr, refl, sym, ap, ◌∙◌, Bool, true, false, List, [], ◌∷◌, Option,
  Bytes, length, leb, ltb, if◌then◌else◌, arith, Bool-cases, Option-cases,
}
use idena_test_go.Prelude.Result.{Result, ok, err, panic, ◌>>=◌, >>=-eq-ok, >>-eq-ok}
use idena_test_go.Process.Answers.{FlipHash}
use idena_test_go.Process.Hashes.{
  FlipWords, Session, Checked, passed, empty_hashes, allowable, too_many, assert_flip_words,
  count_not_ready, verdict, check_flip_hashes, is_acceptable, is_passed,
}

abbrev pub not_ready : List FlipHash → ℕ
not_ready [] = 0
not_ready (flip ∷ flips) = if flip.ready then not_ready flips else suc (not_ready flips)

-- How many flips may be missing at an attempt.
abbrev pub allowed_at : Session → ℕ → ℕ
allowed_at s n = if s.late n then s.allowed else 0

pub ok_injective {ℓ} : {A : Type ℓ} {a b : A} → ok a ≡ ok b → a ≡ b
ok_injective h = cc

pub passed-acceptable : (c : Checked) → is_passed c ≡ true → is_acceptable c ≡ true
passed-acceptable passed h = refl
passed-acceptable empty_hashes h = h
passed-acceptable (allowable n) h = refl
passed-acceptable (too_many n) h = h

suc_of :
    (rest : Result ℕ) {n : ℕ}
    → (rest >>= (λ k. ok (suc k))) ≡ ok n
    → (k : ℕ) × (rest ≡ ok k) × (n ≡ suc k)
suc_of (ok k) h = (k, refl, cc)
suc_of (err e) h = cc
suc_of (panic e) h = cc

module _ (words_by_cid : Bytes → Option (ℕ × ℕ)) (words : Bytes → Option FlipWords) where
  not_ready-count :
      (looks_up : Bool) (flips : List FlipHash) (n : ℕ)
      → count_not_ready words_by_cid looks_up words flips ≡ ok n
      → not_ready flips ≤ n
  unfolding count_not_ready
  not_ready-count looks_up [] n h = omega arith
  not_ready-count looks_up (flip ∷ flips) n h =
      let rest = count_not_ready words_by_cid looks_up words flips in
      elim (Bool-cases flip.ready) [
        | inr r ↦
            let (k, e, up) = suc_of rest (rw r at h) in
            rw r (omega (arith, not_ready-count looks_up flips k e))
        | inl r ↦ rw r (elim (Bool-cases looks_up) [
          | inr u ↦ not_ready-count looks_up flips n (rw (r, u) at h)
          | inl u ↦ elim (Option-cases (words flip.hash)) [
            | inl w ↦
                let (k, e, up) = suc_of rest (rw (r, u, w) at h) in
                omega (arith, not_ready-count looks_up flips k e)
            | inr (found, w) ↦
                let (_, e) =
                  >>-eq-ok (assert_flip_words words_by_cid flip.hash found) rest
                    (rw (r, u, w) at h) in
                not_ready-count looks_up flips n e
          ]
        ])
      ]

  verdict_lem :
      (count allowed : ℕ)
      → (is_acceptable (verdict count allowed) ≡ leb count allowed)
        × (is_passed (verdict count allowed) ≡ leb count 0)
  verdict_lem zero allowed = (ground arith, ground arith)
  verdict_lem (suc n) allowed = elim (Bool-cases (ltb allowed (suc n))) [
    | inl x ↦ (rw x (ground (arith, x)), rw x (ground arith))
    | inr x ↦ (rw x (ground (arith, x)), rw x (ground arith))
  ]

  pub check_flip_hashes-accepted :
      (looks_up : Bool) (flips : List FlipHash) (allowed : ℕ) (c : Checked)
      → check_flip_hashes words_by_cid looks_up words flips allowed ≡ ok c
      → is_acceptable c ≡ true
      → (1 ≤ length flips) × (not_ready flips ≤ allowed)
  unfolding check_flip_hashes
  check_flip_hashes-accepted looks_up [] allowed c h good =
      let e : is_acceptable c ≡ false = ap is_acceptable (ok_injective (sym h)) in absurd cc
  check_flip_hashes-accepted looks_up (flip ∷ flips) allowed c h good =
      let (count, e, v) =
        >>=-eq-ok (count_not_ready words_by_cid looks_up words (flip ∷ flips))
          (λ count. ok (verdict count allowed)) h in
      let least = not_ready-count looks_up (flip ∷ flips) count e in
      let within : leb count allowed ≡ true =
        sym (verdict_lem count allowed).0 ∙ ap is_acceptable (ok_injective v) ∙ good in
      (omega arith, ground (arith, within, least))

  -- Without looking up words, the count is that of the flips that are not ready.
  count_not_ready-exact :
      (flips : List FlipHash)
      → count_not_ready words_by_cid false words flips ≡ ok (not_ready flips)
  unfolding count_not_ready
  count_not_ready-exact [] = refl
  count_not_ready-exact (flip ∷ flips) = elim (Bool-cases flip.ready) [
    | inl r ↦ rw r (count_not_ready-exact flips)
    | inr r ↦ rw (r, count_not_ready-exact flips) refl
  ]

-- Whether flips are enough, with as many missing as allowed.
abbrev pub enough : List FlipHash → ℕ → Bool
enough [] allowed = false
enough (flip ∷ flips) allowed = leb (not_ready (flip ∷ flips)) allowed

module _ (words_by_cid : Bytes → Option (ℕ × ℕ)) (words : Bytes → Option FlipWords) where
  pub check_flip_hashes-exact :
      (flips : List FlipHash) (allowed : ℕ)
      → (c : Checked) × (check_flip_hashes words_by_cid false words flips allowed ≡ ok c)
        × (is_acceptable c ≡ enough flips allowed)
        × (is_passed c ≡ enough flips 0)
  unfolding check_flip_hashes
  check_flip_hashes-exact [] allowed = (empty_hashes, refl, refl, refl)
  check_flip_hashes-exact (flip ∷ flips) allowed =
      let count = not_ready (flip ∷ flips) in
      let (a, p) = verdict_lem words_by_cid words count allowed in
      (
        verdict count allowed,
        rw (count_not_ready-exact words_by_cid words (flip ∷ flips)) refl,
        a,
        p,
      )
