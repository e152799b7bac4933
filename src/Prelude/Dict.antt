-- ===== src/Prelude/Dict.antt =====
-- A Go map keyed by integers, as an association list in the order of the first writes.
use mathlib.Core.Path.{◌≡◌, refl}
use mathlib.Core.Option.{Option, none, some}
use mathlib.Core.List.{List, [], ◌∷◌}
use native.Mathlib.Omega.{arith}
use idena_test_go.Prelude.Tests.{if◌then◌else◌}
use idena_test_go.Prelude.Int.{ℤ, ◌==ℤ◌, ==ℤ_iff}

abbrev pub Dict {ℓ} : Type ℓ → Type ℓ
Dict V = List (ℤ × V)

module _ {ℓ} {V : Type ℓ} where
  unfoldable pub lookup : ℤ → Dict V → Option V
  lookup k [] = none
  lookup k ((j, v) ∷ m) = if j ==ℤ k then some v else lookup k m

  -- `m[k] = v`
  unfoldable pub insert : ℤ → V → Dict V → Dict V
  insert k v [] = (k, v) ∷ []
  insert k v ((j, w) ∷ m) = if j ==ℤ k then (k, v) ∷ m else (j, w) ∷ insert k v m

  pub lookup-insert :
      (k j : ℤ) (v : V) (m : Dict V)
      → lookup j (insert k v m) ≡ (if k ==ℤ j then some v else lookup j m)
  unfolding lookup insert
  lookup-insert k j v [] = refl
  lookup-insert k j v ((i, w) ∷ m) =
      ground (arith, ==ℤ_iff k j, ==ℤ_iff i k, ==ℤ_iff i j, lookup-insert k j v m)
