-- ===== src/Node/Leftover.antt =====
-- node/node.go: the numbers of processes that are alive, each of which is new when it is given.
use idena_test_go.Prelude.{
  ℕ, suc, ◌+◌, ◌<◌, ◌≤◌, ◌≡◌, refl, ap, inl, inr, true, false, List, [], ◌∷◌, Option, none, some,
  length, arith, ◌==◌, Bool-cases, if◌then◌else◌,
}
use idena_test_go.Node.Runs.{without}

-- A start counts where the node has a process already.
abbrev pub starts_over : Option ℕ → ℕ
starts_over none = 0
starts_over (some pid) = 1

-- The processes that are alive and that the node does not have.
abbrev pub leftover : Option ℕ → List ℕ → List ℕ
leftover none live = live
leftover (some pid) live = without pid live

-- Numbers that fall from below a bound on, so that none stands twice.
abbrev pub Falls : ℕ → List ℕ → Type 0
Falls bound [] = Unit
Falls bound (p ∷ live) = (p < bound) × Falls p live

Falls-later : (low high : ℕ) (live : List ℕ) → low ≤ high → Falls low live → Falls high live
Falls-later low high [] h falls = tt
Falls-later low high (p ∷ live) h falls = (omega arith, falls.1)

pub Falls-without :
    (bound pid : ℕ) (live : List ℕ) → Falls bound live → Falls bound (without pid live)
Falls-without bound pid [] h = tt
Falls-without bound pid (p ∷ live) h =
    let rest = Falls-without p pid live h.1 in
    elim (p == pid) as (λ b. Falls bound (if b then without pid live else p ∷ without pid live)) [
      | true ↦ Falls-later p bound (without pid live) (omega arith) rest
      | false ↦ (h.0, rest)
    ]

-- A number below which all stand is not among them.
pub without-absent :
    (bound pid : ℕ) (live : List ℕ) → bound ≤ pid → Falls bound live → without pid live ≡ live
without-absent bound pid [] h falls = refl
without-absent bound pid (p ∷ live) h falls =
    let rest = without-absent p pid live (omega arith) falls.1 in
    let differs : (p == pid) ≡ false = ground arith in rw differs (ap (λ l. p ∷ l) rest)

length-without_le : (pid : ℕ) (live : List ℕ) → length (without pid live) ≤ length live
length-without_le pid [] = omega arith
length-without_le pid (p ∷ live) = ground (arith, length-without_le pid live)

-- Without a number there is at most one fewer.
length-without :
    (bound pid : ℕ) (live : List ℕ)
    → Falls bound live
    → length live ≤ suc (length (without pid live))
length-without bound pid [] h = omega arith
length-without bound pid (p ∷ live) h = elim (Bool-cases (p == pid)) [
  | inl same ↦
      let gone = without-absent p pid live (ground (arith, same)) h.1 in
      rw same (omega (arith, ap length gone))
  | inr other ↦ rw other (let rest = length-without p pid live h.1 in omega arith)
]

fewer :
    (own pid : ℕ) (live : List ℕ)
    → length (without own (without pid live)) ≤ length (without own live)
fewer own pid [] = omega arith
fewer own pid (p ∷ live) = ground (arith, fewer own pid live)

pub leftover_at_most :
    (process : Option ℕ) (bound n : ℕ) (live : List ℕ)
    → Falls bound live
    → length (leftover process live) ≤ n
    → length live ≤ n + starts_over process
leftover_at_most none bound n live falls h = omega arith
leftover_at_most (some pid) bound n live falls h =
    omega (arith, length-without bound pid live falls)

pub all_at_most :
    (process : Option ℕ) (bound n : ℕ) (live : List ℕ)
    → Falls bound live
    → length (leftover process live) ≤ n
    → length live ≤ suc n
all_at_most none bound n live falls h = omega arith
all_at_most (some pid) bound n live falls h = omega (arith, length-without bound pid live falls)

pub leftover-without :
    (process : Option ℕ) (pid n : ℕ) (live : List ℕ)
    → length (leftover process live) ≤ n
    → length (leftover process (without pid live)) ≤ n
leftover-without none pid n live h = omega (arith, length-without_le pid live)
leftover-without (some own) pid n live h = omega (arith, fewer own pid live)
