-- ===== src/Scenario/Conversion/Switches/Order.antt =====
-- The stable sort of scenario/conversion.go: what its result is, and how it meets an append.
use idena_test_go.Prelude.{
  ◌≡◌, refl, sym, ap, ◌∙◌, true, false, List, [], ◌∷◌, ◌++◌, arith, if◌then◌else◌, Bool-cases, inl,
  inr,
}
use idena_test_go.Prelude.Int.{ℤ, ltb_ℤ, ◌≤ℤ◌, ◌==ℤ◌, ==ℤ_iff}
use idena_test_go.Scenario.Model.{NodeSwitch}
use idena_test_go.Scenario.Conversion.Switches.{insert_switch, sort_stable}

-- No switch comes before one with a smaller delay.
abbrev IsAbove : ℤ → List NodeSwitch → Type 0
IsAbove d [] = Unit
IsAbove d (x ∷ xs) = d ≤ℤ x.delay

abbrev pub IsSorted : List NodeSwitch → Type 0
IsSorted [] = Unit
IsSorted (x ∷ xs) = IsAbove x.delay xs × IsSorted xs

-- The switches of one delay, in their order.
abbrev pub at_delay : ℤ → List NodeSwitch → List NodeSwitch
at_delay d [] = []
at_delay d (x ∷ xs) = let rest = at_delay d xs in if x.delay ==ℤ d then x ∷ rest else rest

ltb_ℤ-eq-true : (a b : ℤ) → ltb_ℤ a b ≡ true → a ≤ℤ b
ltb_ℤ-eq-true a b h = ground arith

ltb_ℤ-eq-false : (a b : ℤ) → ltb_ℤ a b ≡ false → b ≤ℤ a
ltb_ℤ-eq-false a b h = ground arith

insert_switch-IsAbove :
    (d : ℤ) (x : NodeSwitch) (ys : List NodeSwitch)
    → d ≤ℤ x.delay
    → IsAbove d ys
    → IsAbove d (insert_switch x ys)
unfolding insert_switch
insert_switch-IsAbove d x [] h k = h
insert_switch-IsAbove d x (y ∷ ys) h k = ground arith

insert_switch-IsSorted :
    (x : NodeSwitch) (ys : List NodeSwitch) → IsSorted ys → IsSorted (insert_switch x ys)
unfolding insert_switch
insert_switch-IsSorted x [] h = (tt, tt)
insert_switch-IsSorted x (y ∷ ys) h = elim (Bool-cases (ltb_ℤ y.delay x.delay)) [
  | inl less ↦ rw less (
    insert_switch-IsAbove y.delay x ys (ltb_ℤ-eq-true y.delay x.delay less) h.0,
    insert_switch-IsSorted x ys h.1,
  )
  | inr not_less ↦ rw not_less (ltb_ℤ-eq-false y.delay x.delay not_less, h)
]

pub sort_stable-IsSorted : (xs : List NodeSwitch) → IsSorted (sort_stable xs)
unfolding sort_stable
sort_stable-IsSorted [] = tt
sort_stable-IsSorted (x ∷ xs) = insert_switch-IsSorted x (sort_stable xs) (sort_stable-IsSorted xs)

insert_switch-at_delay :
    (d : ℤ) (x : NodeSwitch) (ys : List NodeSwitch)
    → at_delay d (insert_switch x ys) ≡ at_delay d (x ∷ ys)
unfolding insert_switch
insert_switch-at_delay d x [] = refl
insert_switch-at_delay d x (y ∷ ys) =
    ground (arith, insert_switch-at_delay d x ys, ==ℤ_iff x.delay d, ==ℤ_iff y.delay d)

pub at_delay-sort_stable :
    (d : ℤ) (xs : List NodeSwitch) → at_delay d (sort_stable xs) ≡ at_delay d xs
unfolding sort_stable
at_delay-sort_stable d [] = refl
at_delay-sort_stable d (x ∷ xs) =
    insert_switch-at_delay d x (sort_stable xs)
    ∙ ap (λ l. if x.delay ==ℤ d then x ∷ l else l) (at_delay-sort_stable d xs)

insert_switch_comm :
    (x y : NodeSwitch) (zs : List NodeSwitch)
    → ltb_ℤ y.delay x.delay ≡ true
    → insert_switch x (insert_switch y zs) ≡ insert_switch y (insert_switch x zs)
unfolding insert_switch
insert_switch_comm x y [] h = ground arith
insert_switch_comm x y (z ∷ zs) h = ground (arith, insert_switch_comm x y zs h)

-- The switches of a list, inserted from its end into another.
abbrev inserted : List NodeSwitch → List NodeSwitch → List NodeSwitch
inserted [] zs = zs
inserted (x ∷ xs) zs = insert_switch x (inserted xs zs)

inserted-insert_switch :
    (x : NodeSwitch) (ys zs : List NodeSwitch)
    → inserted (insert_switch x ys) zs ≡ insert_switch x (inserted ys zs)
unfolding insert_switch
inserted-insert_switch x [] zs = refl
inserted-insert_switch x (y ∷ ys) zs =
    ground (arith, inserted-insert_switch x ys zs, insert_switch_comm x y (inserted ys zs))

inserted-sort_stable : (xs zs : List NodeSwitch) → inserted (sort_stable xs) zs ≡ inserted xs zs
unfolding sort_stable
inserted-sort_stable [] zs = refl
inserted-sort_stable (x ∷ xs) zs =
    inserted-insert_switch x (sort_stable xs) zs ∙ ap (insert_switch x) (inserted-sort_stable xs zs)

sort_stable-append :
    (xs ys : List NodeSwitch) → sort_stable (xs ++ ys) ≡ inserted xs (sort_stable ys)
unfolding sort_stable
sort_stable-append [] ys = refl
sort_stable-append (x ∷ xs) ys = ap (insert_switch x) (sort_stable-append xs ys)

-- A sorted list may be sorted again after an append: it is as if all had been appended first.
pub sort_stable_again :
    (xs ys : List NodeSwitch) → sort_stable (sort_stable xs ++ ys) ≡ sort_stable (xs ++ ys)
sort_stable_again xs ys =
    sort_stable-append (sort_stable xs) ys
    ∙ inserted-sort_stable xs (sort_stable ys)
    ∙ sym (sort_stable-append xs ys)
