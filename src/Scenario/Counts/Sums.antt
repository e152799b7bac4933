-- ===== src/Scenario/Counts/Sums.antt =====
-- What the entries of the new users add up to, and how the map of scenario/validation.go sums them.
use idena_test_go.Prelude.{
  ℕ, ◌+◌, ◌≡◌, refl, sym, ◌∙◌, ap, Bool, List, [], ◌∷◌, arith, if◌then◌else◌, All, inl, inr,
  Bool-cases,
}
use idena_test_go.Prelude.Int.{
  ℤ, pos, negsuc, +ℤ_interchange, ◌+ℤ◌, ◌≤ℤ◌, leb_ℤ, ◌==ℤ◌, ==ℤ_iff, wrap64, int_laws,
  wrap64-add_left, wrap64_idem, +ℤ_assoc, +ℤ-zero, zero-+ℤ,
}
use idena_test_go.Prelude.Dict.{Dict, insert, lookup-insert}
use idena_test_go.Scenario.Counts.{count_at, Tally, add_epoch, add_epochs}

-- The sum of `count` over the epochs that pass a test.
abbrev pub joined_at : (ℤ → Bool) → ℤ → List ℤ → ℤ
joined_at test count [] = pos 0
joined_at test count (e ∷ es) = (if test e then count else pos 0) +ℤ joined_at test count es

pub count_at-insert :
    (k e c : ℤ) (m : Dict ℤ) → count_at k (insert e c m) ≡ (if e ==ℤ k then c else count_at k m)
unfolding count_at
count_at-insert k e c m = ground (arith, lookup-insert e k c m)

add_epoch-count_at :
    (k count : ℤ) (t : Tally) (e : ℤ)
    → wrap64 (count_at k (add_epoch count t e).counts)
      ≡ wrap64 (count_at k t.counts +ℤ (if e ==ℤ k then count else pos 0))
unfolding add_epoch
add_epoch-count_at k count t e = elim (Bool-cases (e ==ℤ k)) [
  | inl same ↦
      let eq : e ≡ k = (==ℤ_iff e k).0 same in
      rw (count_at-insert k e (wrap64 (count_at e t.counts +ℤ count)) t.counts, same, eq)
        (wrap64_idem (count_at k t.counts +ℤ count))
  | inr other ↦
      rw (count_at-insert k e (wrap64 (count_at e t.counts +ℤ count)) t.counts, other)
        (ap wrap64 (sym (+ℤ-zero (count_at k t.counts))))
]

-- Modulo 2^64 the map gains at a key what the epochs equal to that key bring.
pub add_epochs-count_at :
    (k count : ℤ) (es : List ℤ) (t : Tally)
    → wrap64 (count_at k (add_epochs count es t).counts)
      ≡ wrap64 (count_at k t.counts +ℤ joined_at (λ e. e ==ℤ k) count es)
unfolding add_epochs
add_epochs-count_at k count [] t = ap wrap64 (sym (+ℤ-zero (count_at k t.counts)))
add_epochs-count_at k count (e ∷ es) t =
    let here : ℤ = if e ==ℤ k then count else pos 0 in
    add_epochs-count_at k count es (add_epoch count t e)
    ∙ wrap64-add_left _ _ (joined_at (λ x. x ==ℤ k) count es) (add_epoch-count_at k count t e)
    ∙ ap wrap64 (+ℤ_assoc (count_at k t.counts) here (joined_at (λ x. x ==ℤ k) count es))

-- The largest epoch never falls, and bounds every epoch that was added.
pub add_epochs-max_epoch :
    (count : ℤ) (es : List ℤ) (t : Tally)
    → (t.max_epoch ≤ℤ (add_epochs count es t).max_epoch)
      × All (λ e. e ≤ℤ (add_epochs count es t).max_epoch) es
unfolding add_epochs add_epoch
add_epochs-max_epoch count [] t = omega arith
add_epochs-max_epoch count (e ∷ es) t =
    ground (arith, add_epochs-max_epoch count es (add_epoch count t e))

head-suc :
    (n : ℕ) (count e : ℤ)
    → (if leb_ℤ e (pos (n + 1)) then count else pos 0)
      ≡ (if leb_ℤ e (pos n) then count else pos 0) +ℤ (if e ==ℤ pos (n + 1) then count else pos 0)
head-suc n count (pos e) = ground (arith, +ℤ-zero count, zero-+ℤ count, +ℤ-zero (pos 0))
head-suc n count (negsuc e) = ground (arith, +ℤ-zero count, zero-+ℤ count, +ℤ-zero (pos 0))

-- The entries up to an epoch are those before it and those at it.
pub joined_at-suc :
    (n : ℕ) (count : ℤ) (es : List ℤ)
    → joined_at (λ e. leb_ℤ e (pos (n + 1))) count es
      ≡ joined_at (λ e. leb_ℤ e (pos n)) count es +ℤ joined_at (λ e. e ==ℤ pos (n + 1)) count es
joined_at-suc n count [] = omega int_laws
joined_at-suc n count (e ∷ es) = cc (
  head-suc n count e,
  joined_at-suc n count es,
  +ℤ_interchange (if leb_ℤ e (pos n) then count else pos 0)
      (if e ==ℤ pos (n + 1) then count else pos 0) (joined_at (λ x. leb_ℤ x (pos n)) count es)
      (joined_at (λ x. x ==ℤ pos (n + 1)) count es),
)

-- No epoch is negative, so those up to 0 are those at 0.
pub joined_at-zero :
    (count : ℤ) (es : List ℤ)
    → All (λ e. pos 0 ≤ℤ e) es
    → joined_at (λ e. leb_ℤ e (pos 0)) count es ≡ joined_at (λ e. e ==ℤ pos 0) count es
joined_at-zero count [] h = refl
joined_at-zero count (e ∷ es) h = ground (arith, joined_at-zero count es h.1)

-- Past the largest epoch nothing is added.
pub joined_at-above :
    (count top i : ℤ) (es : List ℤ)
    → top ≤ℤ i
    → All (λ e. e ≤ℤ top) es
    → joined_at (λ e. leb_ℤ e i) count es ≡ joined_at (λ e. leb_ℤ e top) count es
joined_at-above count top i [] h hs = refl
joined_at-above count top i (e ∷ es) h hs = ground (arith, joined_at-above count top i es h hs.1)
