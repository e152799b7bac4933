-- ===== src/Scenario/Conversion/Loops.antt =====
-- What the functions of scenario/conversion.go share: the loops over epochs and nodes, maps of maps,
-- and durations.
use idena_test_go.Prelude.{
  Bytes, All, ap, ◌∙◌, ◌≡◌, refl, ◌&&◌, List, [], ◌∷◌, Option, none, some, arith, if◌then◌else◌,
}
use idena_test_go.Prelude.Int.{ℤ, pos, ◌*ℤ◌, wrap64, ◌==ℤ◌, ==ℤ_iff}
use idena_test_go.Prelude.Result.{Result, ok, or_panic, each_with}
use idena_test_go.Scenario.Nums.{parse_nums}
use idena_test_go.Scenario.Counts.{ignore_error}
use idena_test_go.Prelude.Dict.{Dict, lookup, insert, lookup-insert}

-- The numbers of a text, an error being ignored, or raised as a panic.
abbrev pub numbers : Bytes → Result (List ℤ)
numbers s = ignore_error (parse_nums s)

abbrev pub numbers_or_panic : Bytes → Result (List ℤ)
numbers_or_panic s = or_panic (parse_nums s)

-- `for _, x := range xs { s = f(x, s) }`
abbrev pub over {ℓ κ} : {A : Type ℓ} {S : Type κ} → (A → S → S) → List A → S → S
over f [] s = s
over f (x ∷ xs) s = over f xs (f x s)

-- `for _, epoch := range epochs { for _, node := range nodes { … } }`
abbrev pub over_pairs {κ} : {S : Type κ} → (ℤ → ℤ → S → S) → List ℤ → List ℤ → S → S
over_pairs f epochs nodes = over (λ epoch. over (f epoch) nodes) epochs

-- The loops as functions of what they read: `f'` is the body where its texts are read.
pub each_with_lem {ℓ κ} :
    {A : Type ℓ} {S : Type κ} (P : A → Type 0) (f : A → S → Result S) (f' : A → S → S)
    → ((a : A) → P a → (s : S) → f a s ≡ ok (f' a s))
    → (xs : List A) → All P xs
    → (s : S) → each_with f xs s ≡ ok (over f' xs s)
each_with_lem P f f' h [] hs s = refl
each_with_lem P f f' h (x ∷ xs) hs s = rw (h x hs.0 s) (each_with_lem P f f' h xs hs.1 (f' x s))

-- What is observed of the variable of a loop is the variable of a loop.
pub over_lem {ℓ κ} :
    {A : Type ℓ} {S X : Type κ} (see : S → X) (f : A → S → S) (g : A → X → X)
    → ((a : A) (s : S) → see (f a s) ≡ g a (see s))
    → (xs : List A) (s : S) → see (over f xs s) ≡ over g xs (see s)
over_lem see f g h [] s = refl
over_lem see f g h (x ∷ xs) s = over_lem see f g h xs (f x s) ∙ ap (over g xs) (h x s)

pub over_pairs_lem {κ} :
    {S X : Type κ} (see : S → X) (f : ℤ → ℤ → S → S) (g : ℤ → ℤ → X → X)
    → ((e n : ℤ) (s : S) → see (f e n s) ≡ g e n (see s))
    → (epochs nodes : List ℤ) (s : S)
    → see (over_pairs f epochs nodes s) ≡ over_pairs g epochs nodes (see s)
over_pairs_lem see f g h epochs nodes s =
    over_lem see (λ e. over (f e) nodes) (λ e. over (g e) nodes)
      (λ e s'. over_lem see (f e) (g e) (h e) nodes s') epochs s

-- `time.Second * time.Duration(n)` and `time.Millisecond * time.Duration(n)`
unfoldable pub seconds : ℤ → ℤ
unfolding ◌*ℤ◌ wrap64
seconds n = wrap64 (pos 1_000_000_000 *ℤ n)

unfoldable pub milliseconds : ℤ → ℤ
unfolding ◌*ℤ◌ wrap64
milliseconds n = wrap64 (pos 1_000_000 *ℤ n)

module _ {V : Type 0} where
  -- `m[k]`, with the zero value where the key is missing.
  unfoldable pub get_or : V → ℤ → Dict V → V
  unfolding lookup
  get_or zero k m = elim (lookup k m) [ none ↦ zero | some v ↦ v ]

  -- `m[k] = f(m[k])`
  unfoldable pub update : V → (V → V) → ℤ → Dict V → Dict V
  unfolding get_or insert
  update zero f k m = insert k (f (get_or zero k m)) m

  pub get_or-update :
      (zero : V) (f : V → V) (k j : ℤ) (m : Dict V)
      → get_or zero j (update zero f k m)
        ≡ (if k ==ℤ j then f (get_or zero j m) else get_or zero j m)
  unfolding get_or update
  get_or-update zero f k j m =
      ground (arith, lookup-insert k j (f (get_or zero k m)) m, ==ℤ_iff k j)

  pub get_or-insert :
      (zero v : V) (k j : ℤ) (m : Dict V)
      → get_or zero j (insert k v m) ≡ (if k ==ℤ j then v else get_or zero j m)
  unfolding get_or
  get_or-insert zero v k j m = ground (arith, lookup-insert k j v m)

module _ {V : Type 0} where
  -- `m[epoch][node]`: what a map of maps holds, if anything.
  unfoldable pub lookup_pair : ℤ → ℤ → Dict (Dict V) → Option V
  unfolding lookup get_or
  lookup_pair epoch node m = lookup node (get_or [] epoch m)

  -- `if _, present := m[epoch]; !present { m[epoch] = make(…) }; m[epoch][node] = v`
  unfoldable pub put_pair : ℤ → ℤ → V → Dict (Dict V) → Dict (Dict V)
  unfolding update
  put_pair epoch node v = update [] (insert node v) epoch

  pub lookup_pair-put_pair :
      (e n e' n' : ℤ) (v : V) (m : Dict (Dict V))
      → lookup_pair e' n' (put_pair e n v m)
        ≡ (if e ==ℤ e' && n ==ℤ n' then some v else lookup_pair e' n' m)
  unfolding lookup_pair put_pair
  lookup_pair-put_pair e n e' n' v m =
      ground (arith, get_or-update [] (insert n v) e e' m, lookup-insert n n' v (get_or [] e' m))
