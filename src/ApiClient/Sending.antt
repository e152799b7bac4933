-- ===== src/ApiClient/Sending.antt =====
-- apiclient/client.go: which of the ten attempts of a request decides.
use idena_test_go.Prelude.{ℕ, zero, suc, ◌+◌, ◌<◌, ◌≡◌, sym, ap, ◌∙◌, true, false, arith}
use idena_test_go.ApiClient.{Attempt, is_ok, body_of, send_loop, Network, Request, send_request}

-- The `n` attempts from the `at`-th on fail.
abbrev pub AllFail : (ℕ → Attempt) → (n at : ℕ) → Type 0
AllFail outcomes zero at = Unit
AllFail outcomes (suc n) at = (is_ok (outcomes at) ≡ false) × AllFail outcomes n (suc at)

send_loop-first :
    (outcomes : ℕ → Attempt) (n counter at : ℕ)
    → AllFail outcomes n at
    → is_ok (outcomes (at + n)) ≡ true
    → n < counter
    → send_loop outcomes counter at ≡ body_of (outcomes (at + n))
unfolding send_loop
send_loop-first outcomes n zero at failed good more = absurd (omega arith)
send_loop-first outcomes zero (suc counter) at failed good more =
    let here : at + 0 ≡ at = omega arith in
    let good' : is_ok (outcomes at) ≡ true = ap (λ i. is_ok (outcomes i)) (sym here) ∙ good in
    rw good' (ap (λ i. body_of (outcomes i)) (sym here))
send_loop-first outcomes (suc n) (suc counter) at (bad, failed) good more =
    let later : suc at + n ≡ at + suc n = omega arith in
    rw bad (
      send_loop-first outcomes n counter (suc at) failed (ap (λ i. is_ok (outcomes i)) later ∙ good)
        (omega arith)
      ∙ ap (λ i. body_of (outcomes i)) later)

pub send_request-first :
    (network : Network) (request : Request) (n : ℕ)
    → AllFail (network request) n 0
    → is_ok (network request n) ≡ true
    → n < 10
    → send_request network request ≡ body_of (network request n)
unfolding send_request
send_request-first network request n failed good more =
    let here : n ≡ 0 + n = omega arith in
    send_loop-first (network request) n 10 0 failed
      (ap (λ i. is_ok (network request i)) (sym here) ∙ good) more
    ∙ ap (λ i. body_of (network request i)) (sym here)
