-- ===== src/Scenario/Counts/Users.antt =====
-- The counts of scenario/validation.go against what they mean: the users that have joined by then.
use idena_test_go.Prelude.{
  ℕ, zero, suc, ◌+◌, ◌<◌, ◌≡◌, refl, sym, ◌∙◌, ap, Bool, List, [], ◌∷◌, some, arith, All, get_elem?,
  length,
}
use idena_test_go.Prelude.Int.{
  ℤ, pos, ◌+ℤ◌, ◌≤ℤ◌, leb_ℤ, ◌==ℤ◌, wrap64, int_laws, wrap64-add_left, wrap64_idem, +ℤ_assoc,
  +ℤ-zero, +ℤ_interchange,
}
use idena_test_go.Prelude.Dict.{Dict}
use idena_test_go.Prelude.Result.{ok, >>=-eq-ok, each_with}
use idena_test_go.Scenario.Incoming.{NewUsers}
use idena_test_go.Scenario.Nums.Pieces.{numbers_of, numbers_of-nonneg}
use idena_test_go.Scenario.Counts.{
  ignore_error, count_at, Tally, add_epochs, add_new_users, later_counts,
}
use idena_test_go.Scenario.Counts.Sums.{
  joined_at, add_epochs-count_at, add_epochs-max_epoch, joined_at-suc, joined_at-zero,
  joined_at-above,
}

All-le : (a b : ℤ) (es : List ℤ) → a ≤ℤ b → All (λ e. e ≤ℤ a) es → All (λ e. e ≤ℤ b) es
All-le a b [] h hs = tt
All-le a b (e ∷ es) h hs = (omega arith, All-le a b es h hs.1)

module _ {F : Type 0} where
  -- The users of all sections whose epochs pass a test, once for each such epoch.
  abbrev pub joined : (ℤ → Bool) → List (NewUsers F) → ℤ
  joined test [] = pos 0
  joined test (u ∷ us) = joined_at test u.count (numbers_of u.epochs) +ℤ joined test us

  -- Every epoch of every section passes.
  abbrev pub AllEpochs : (ℤ → Type 0) → List (NewUsers F) → Type 0
  AllEpochs P [] = Unit
  AllEpochs P (u ∷ us) = All P (numbers_of u.epochs) × AllEpochs P us

  add_new_users-eq-ok :
      (u : NewUsers F) (t t' : Tally)
      → add_new_users u t ≡ ok t'
      → t' ≡ add_epochs u.count (numbers_of u.epochs) t
  unfolding add_new_users ignore_error
  add_new_users-eq-ok u t t' h = ground arith

  pub tally-count_at :
      (k : ℤ) (us : List (NewUsers F)) (t t' : Tally)
      → each_with add_new_users us t ≡ ok t'
      → wrap64 (count_at k t'.counts) ≡ wrap64 (count_at k t.counts +ℤ joined (λ e. e ==ℤ k) us)
  tally-count_at k [] t t' h =
      let e : t' ≡ t = cc in rw e (ap wrap64 (sym (+ℤ-zero (count_at k t.counts))))
  tally-count_at k (u ∷ us) t t' h =
      let (t1, e1, rest) = >>=-eq-ok (add_new_users u t) (each_with add_new_users us) h in
      let here : ℤ = joined_at (λ e. e ==ℤ k) u.count (numbers_of u.epochs) in
      tally-count_at k us t1 t' rest
      ∙ wrap64-add_left (count_at k t1.counts) (count_at k t.counts +ℤ here)
          (joined (λ e. e ==ℤ k) us)
          (ap (λ (x : Tally). wrap64 (count_at k x.counts)) (add_new_users-eq-ok u t t1 e1)
            ∙ add_epochs-count_at k u.count (numbers_of u.epochs) t)
      ∙ ap wrap64 (+ℤ_assoc (count_at k t.counts) here (joined (λ e. e ==ℤ k) us))

  pub tally-max_epoch :
      (us : List (NewUsers F)) (t t' : Tally)
      → each_with add_new_users us t ≡ ok t'
      → (t.max_epoch ≤ℤ t'.max_epoch) × AllEpochs (λ e. e ≤ℤ t'.max_epoch) us
  tally-max_epoch [] t t' h = let e : t ≡ t' = cc in rw e (omega arith)
  tally-max_epoch (u ∷ us) t t' h =
      let (t1, e1, rest) = >>=-eq-ok (add_new_users u t) (each_with add_new_users us) h in
      let (up, bound) = tally-max_epoch us t1 t' rest in
      let (up1, bound1) =
        rw (← add_new_users-eq-ok u t t1 e1) at
          (add_epochs-max_epoch u.count (numbers_of u.epochs) t) in
      (omega arith, (All-le t1.max_epoch t'.max_epoch (numbers_of u.epochs) up bound1, bound))

  pub joined-suc :
      (n : ℕ) (us : List (NewUsers F))
      → joined (λ e. leb_ℤ e (pos (n + 1))) us
        ≡ joined (λ e. leb_ℤ e (pos n)) us +ℤ joined (λ e. e ==ℤ pos (n + 1)) us
  joined-suc n [] = omega int_laws
  joined-suc n (u ∷ us) =
      let es = numbers_of u.epochs in
      cc (
        joined_at-suc n u.count es,
        joined-suc n us,
        +ℤ_interchange (joined_at (λ e. leb_ℤ e (pos n)) u.count es)
            (joined_at (λ e. e ==ℤ pos (n + 1)) u.count es) (joined (λ e. leb_ℤ e (pos n)) us)
            (joined (λ e. e ==ℤ pos (n + 1)) us),
      )

  pub joined-zero :
      (us : List (NewUsers F)) → joined (λ e. leb_ℤ e (pos 0)) us ≡ joined (λ e. e ==ℤ pos 0) us
  joined-zero [] = refl
  joined-zero (u ∷ us) =
      cc (joined_at-zero u.count (numbers_of u.epochs) (numbers_of-nonneg u.epochs), joined-zero us)

  pub joined-above :
      (top i : ℤ) (us : List (NewUsers F))
      → top ≤ℤ i
      → AllEpochs (λ e. e ≤ℤ top) us
      → joined (λ e. leb_ℤ e i) us ≡ joined (λ e. leb_ℤ e top) us
  joined-above top i [] h hs = refl
  joined-above top i (u ∷ us) h hs =
      cc (joined_at-above u.count top i (numbers_of u.epochs) h hs.0, joined-above top i us h hs.1)

-- The loop over the epochs computes `S`, if `S` grows by what the map holds.
module _ (m : Dict ℤ) (S : ℕ → ℤ)
    (grows : (n : ℕ) → wrap64 (S (n + 1)) ≡ wrap64 (S n +ℤ count_at (pos (n + 1)) m)) where
  pub later_counts_lem :
      (rounds n j : ℕ) (last : ℤ)
      → j < rounds
      → wrap64 last ≡ wrap64 (S n)
      → get_elem? (later_counts rounds (n + 1) last m) j ≡ some (wrap64 (S (n + 1 + j)))
  unfolding later_counts
  later_counts_lem zero n j last h e = elim h [ ]
  later_counts_lem (suc rounds) n zero last h e =
      rw (wrap64-add_left last (S n) (count_at (pos (n + 1)) m) e, ← grows n) (ground arith)
  later_counts_lem (suc rounds) n (suc j) last h e =
      let next = wrap64 (last +ℤ count_at (pos (n + 1)) m) in
      let same : wrap64 next ≡ wrap64 (S (n + 1)) =
        wrap64_idem _ ∙ wrap64-add_left last (S n) (count_at (pos (n + 1)) m) e ∙ sym (grows n) in
      let shift : n + 1 + suc j ≡ n + 1 + 1 + j = omega arith in
      rw shift (later_counts_lem rounds (n + 1) j next (omega arith) same)

pub length-later_counts :
    (rounds i : ℕ) (last : ℤ) (m : Dict ℤ) → length (later_counts rounds i last m) ≡ rounds
unfolding later_counts
length-later_counts zero i last m = refl
length-later_counts (suc rounds) i last m =
    ap suc (length-later_counts rounds (i + 1) (wrap64 (last +ℤ count_at (pos i) m)) m)
