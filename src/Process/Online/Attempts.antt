-- ===== src/Process/Online/Attempts.antt =====
-- process/verification.go: how often a user tries to switch, and for whom it does.
use idena_test_go.Prelude.{
  ℕ, zero, suc, ◌+◌, ◌<◌, ◌≡◌, ◌↔◌, inl, inr, refl, sym, ap, ◌∙◌, Bool, true, false, ◌||◌, List, [],
  ◌∷◌, All, if◌then◌else◌, arith, Bool-cases,
}
use idena_test_go.Prelude.Int.{ℤ, negsuc, ◌==ℤ◌}
use idena_test_go.Prelude.Result.{Result, ok}
use idena_test_go.Process.Online.{
  pos_loop, pos_of, Tried, Switching, try_loop, try_to_switch_online_state,
}

-- An attempt ends the loop if the node accepts the request or the deadline is over.
abbrev pub ends : Switching → Bool → ℕ → Bool
ends s online n = s.accepts online n || s.late n

-- None of the `n` attempts from the `at`-th on ends the loop.
abbrev pub GoesOn : Switching → Bool → (n at : ℕ) → Type 0
GoesOn s online zero at = Unit
GoesOn s online (suc n) at = (ends s online at ≡ false) × GoesOn s online n (suc at)

abbrev pub step : Switching → Bool → ℕ → Result Tried → Result Tried
step s online at rest =
    if s.accepts online at
    then ok (record { attempts = suc at; succeeds = true })
    else if s.late at
    then ok (record { attempts = suc at; succeeds = false })
    else rest

ended :
    (s : Switching) (online : Bool) (at : ℕ) (rest : Result Tried)
    → ends s online at ≡ true
    → step s online at rest ≡ ok (record { attempts = suc at; succeeds = s.accepts online at })
ended s online at rest h = elim (Bool-cases (s.accepts online at)) [
  | inl a ↦ rw a refl
  | inr a ↦ let l : s.late at ≡ true = rw a at h in rw (a, l) refl
]

continued :
    (s : Switching) (online : Bool) (at : ℕ) (rest : Result Tried)
    → ends s online at ≡ false
    → step s online at rest ≡ rest
continued s online at rest h = elim (Bool-cases (s.accepts online at)) [
  | inl a ↦ let bad : true ≡ false = rw a at h in cc
  | inr a ↦ let l : s.late at ≡ false = rw a at h in rw (a, l) refl
]

try_loop-ends :
    (s : Switching) (online : Bool) (n fuel at : ℕ)
    → GoesOn s online n at
    → ends s online (at + n) ≡ true
    → n < fuel
    → try_loop s online fuel at
      ≡ ok (record { attempts = suc (at + n); succeeds = s.accepts online (at + n) })
unfolding try_loop
try_loop-ends s online n zero at on last more = absurd (omega arith)
try_loop-ends s online zero (suc fuel) at on last more =
    let here : at + 0 ≡ at = omega arith in
    rw here
      (ended s online at (try_loop s online fuel (suc at)) (ap (ends s online) (sym here) ∙ last))
try_loop-ends s online (suc n) (suc fuel) at (bad, on) last more =
    let later : suc at + n ≡ at + suc n = omega arith in
    continued s online at (try_loop s online fuel (suc at)) bad
    ∙ try_loop-ends s online n fuel (suc at) on (ap (ends s online) later ∙ last) (omega arith)
    ∙ ap (λ i. ok (record { attempts = suc i; succeeds = s.accepts online i })) later

pos_loop-absent :
    (slice : List ℤ) (target : ℤ) (i : ℕ)
    → (pos_loop target i slice ≡ negsuc 0) ↔ All (λ v. (v ==ℤ target) ≡ false) slice
unfolding pos_loop
pos_loop-absent [] target i = (λ h. tt, λ h. refl)
pos_loop-absent (v ∷ slice) target i =
    let (to, from) = pos_loop-absent slice target (suc i) in
    elim (Bool-cases (v ==ℤ target)) [
      | inl e ↦ rw e (λ h. cc, λ h. cc)
      | inr e ↦ rw e (λ h. (refl, to h), λ h. from h.1)
    ]

-- `pos` is -1 just for what is not in the slice.
pub pos_of-absent :
    (slice : List ℤ) (target : ℤ)
    → (pos_of slice target ≡ negsuc 0) ↔ All (λ v. (v ==ℤ target) ≡ false) slice
unfolding pos_of
pos_of-absent slice target = pos_loop-absent slice target 0

-- A user tries to switch until the node accepts the request or the deadline is over after an attempt; then
-- it returns, with the number of its attempts, and without an error just where the last one was
-- accepted. A fuel above the number of attempts before is enough.
pub try_to_switch_online_state-ends :
    (s : Switching) (online : Bool) (n : ℕ)
    → GoesOn s online n 0
    → ends s online n ≡ true
    → n < s.fuel
    → try_to_switch_online_state s online
      ≡ ok (record { attempts = suc n; succeeds = s.accepts online n })
unfolding try_to_switch_online_state
try_to_switch_online_state-ends s online n on last more =
    let here : 0 + n ≡ n = omega arith in
    try_loop-ends s online n s.fuel 0 on (ap (ends s online) here ∙ last) more
    ∙ ap (λ i. ok (record { attempts = suc i; succeeds = s.accepts online i })) here
