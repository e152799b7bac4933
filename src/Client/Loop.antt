-- ===== src/Client/Loop.antt =====
-- client/client.go: the loop of `sendRequest`, attempt by attempt.
use idena_test_go.Prelude.{
  ℕ, zero, suc, ◌+◌, ◌-◌, ◌<◌, ◌≡◌, refl, sym, ap, ◌∙◌, Bool, true, false, ◌&&◌, ◌++◌, Bytes, codes,
  arith, ltb, if◌then◌else◌,
}
use idena_test_go.Client.{
  Attempt, answered, undone, unread, error_of, body_of, crashed, Sent, sent, unsent, still_sending,
  Progress, send_loop, after_attempt,
}

-- An attempt without a body.
abbrev pub failed : Attempt → Bool
failed (answered body) = false
failed _ = true

after_attempt-failed :
    (a : Attempt) (now later : Progress Sent) → failed a ≡ true → after_attempt a now later ≡ later
after_attempt-failed (answered body) now later h = cc
after_attempt-failed (undone e) now later h = refl
after_attempt-failed (unread e) now later h = refl

pub unable : Attempt → Bytes
unable a = codes "unable to send request: " ++ error_of a

pub same_progress :
    {A : Type 0} (a : A) (n n' e e' : ℕ)
    → n ≡ n'
    → e ≡ e'
    → ◌≡◌ {A = Progress A}
        (record { answer = a; next = n; events = e })
        (record { answer = a; next = n'; events = e' })
same_progress a n n' e e' hn he = rw (hn, he) refl

if-left : {A : Type 0} (b : Bool) (x y : A) → b ≡ true → (if b && true then x else y) ≡ x
if-left b x y h = rw h refl

if-right : {A : Type 0} (b c : Bool) (x y : A) → b && c ≡ false → (if b && c then x else y) ≡ y
if-right b c x y h = rw h refl

ltb-zero : (n : ℕ) → 0 < n → ltb 0 n ≡ true
ltb-zero n h = ground arith

and-false : (b : Bool) → b && false ≡ false
and-false true = refl
and-false false = refl

module _ (outcomes : ℕ → Attempt) where
  -- The failures of `n` attempts that count, which are those of a node that is up.
  abbrev pub counted : (n at : ℕ) → ℕ
  counted zero at = 0
  counted (suc n) at = (if crashed (outcomes at) then 0 else 1) + counted n (suc at)

  -- The events of `n` attempts, where there is a bus.
  abbrev pub published : Bool → (n at : ℕ) → ℕ
  published bus zero at = 0
  published bus (suc n) at =
      (if crashed (outcomes at) && bus then 1 else 0) + published bus n (suc at)

  abbrev pub AllFail : (n at : ℕ) → Type 0
  AllFail zero at = Unit
  AllFail (suc n) at = (failed (outcomes at) ≡ true) × AllFail n (suc at)

  -- One failed attempt with retries left.
  step :
      (bus : Bool) (fuel counter at events : ℕ)
      → failed (outcomes at) ≡ true
      → 0 < (if crashed (outcomes at) then counter else counter - 1)
      → send_loop outcomes bus true (suc fuel) counter at events
        ≡ send_loop outcomes bus true fuel
            (if crashed (outcomes at) then counter else counter - 1)
            (suc at)
            (if crashed (outcomes at) && bus then suc events else events)
  unfolding send_loop
  step bus fuel counter at events h left =
      after_attempt-failed (outcomes at) _ _ h
      ∙ if-left (ltb 0 (if crashed (outcomes at) then counter else counter - 1)) _ _
          (ltb-zero _ left)

  send_loop-body :
      (bus retry : Bool) (fuel counter at events : ℕ) (body : Bytes)
      → outcomes at ≡ answered body
      → send_loop outcomes bus retry (suc fuel) counter at events
        ≡ record { answer = sent body; next = suc at; events = events }
  unfolding send_loop body_of
  send_loop-body bus retry fuel counter at events body a = rw a refl

  pub send_loop-answered :
      (bus : Bool) (n fuel counter at events : ℕ) (body : Bytes)
      → AllFail n at
      → outcomes (at + n) ≡ answered body
      → counted n at < counter
      → n < fuel
      → send_loop outcomes bus true fuel counter at events
        ≡ record { answer = sent body; next = suc (at + n); events = events + published bus n at }
  send_loop-answered bus n zero counter at events body h a left enough = absurd (omega arith)
  send_loop-answered bus zero (suc fuel) counter at events body h a left enough =
      let here : at + 0 ≡ at = omega arith in
      send_loop-body bus true fuel counter at events body (ap outcomes (sym here) ∙ a)
      ∙ same_progress (sent body) (suc at) (suc (at + 0)) events (events + 0) (omega arith)
          (omega arith)
  send_loop-answered bus (suc n) (suc fuel) counter at events body h a left enough =
      let counter' = if crashed (outcomes at) then counter else counter - 1 in
      let events' = if crashed (outcomes at) && bus then suc events else events in
      let later : suc at + n ≡ at + suc n = omega arith in
      step bus fuel counter at events h.0 (ground arith)
      ∙ send_loop-answered bus n fuel counter' (suc at) events' body h.1 (ap outcomes later ∙ a)
          (ground arith) (omega arith)
      ∙ same_progress (sent body) (suc (suc at + n)) (suc (at + suc n))
          (events' + published bus n (suc at)) (events + published bus (suc n) at) (omega arith)
          (ground arith)

  pub send_loop-first :
      (bus retry : Bool) (fuel counter at events : ℕ) (body : Bytes)
      → 0 < fuel
      → outcomes at ≡ answered body
      → send_loop outcomes bus retry fuel counter at events
        ≡ record { answer = sent body; next = suc at; events = events }
  send_loop-first bus retry zero counter at events body enough a = absurd (omega arith)
  send_loop-first bus retry (suc fuel) counter at events body enough a =
      send_loop-body bus retry fuel counter at events body a

  -- The last failure counts, and there is no attempt left.
  send_loop-given_up :
      (bus retry : Bool) (fuel counter at events : ℕ)
      → failed (outcomes at) ≡ true
      → ltb 0 (if crashed (outcomes at) then counter else counter - 1) && retry ≡ false
      → send_loop outcomes bus retry (suc fuel) counter at events ≡ record {
        answer = unsent (unable (outcomes at));
        next = suc at;
        events = if crashed (outcomes at) && bus then suc events else events;
      }
  unfolding send_loop unable
  send_loop-given_up bus retry fuel counter at events h none_left =
      after_attempt-failed (outcomes at) _ _ h
      ∙ if-right (ltb 0 (if crashed (outcomes at) then counter else counter - 1)) retry _ _
          none_left

  counted-positive : (n at : ℕ) → crashed (outcomes (at + n)) ≡ false → 0 < counted (suc n) at
  counted-positive zero at h =
      let here : at + 0 ≡ at = omega arith in
      let up : crashed (outcomes at) ≡ false = ap (λ i. crashed (outcomes i)) (sym here) ∙ h in
      rw up (omega arith)
  counted-positive (suc n) at h =
      let later : suc at + n ≡ at + suc n = omega arith in
      let rest = counted-positive n (suc at) (ap (λ i. crashed (outcomes i)) later ∙ h) in
      ground arith

  pub send_loop-failed :
      (bus : Bool) (n fuel counter at events : ℕ)
      → AllFail (suc n) at
      → crashed (outcomes (at + n)) ≡ false
      → counted (suc n) at ≡ counter
      → n < fuel
      → send_loop outcomes bus true fuel counter at events ≡ record {
        answer = unsent (unable (outcomes (at + n)));
        next = suc (at + n);
        events = events + published bus (suc n) at;
      }
  send_loop-failed bus n zero counter at events h up all enough = absurd (omega arith)
  send_loop-failed bus zero (suc fuel) counter at events h up all enough =
      let here : at + 0 ≡ at = omega arith in
      let up' : crashed (outcomes at) ≡ false = ap (λ i. crashed (outcomes i)) (sym here) ∙ up in
      send_loop-given_up bus true fuel counter at events h.0 (ground arith)
      ∙ ap
          (λ i. record {
            answer = unsent (unable (outcomes i));
            next = suc i;
            events = if crashed (outcomes at) && bus then suc events else events;
          })
          (sym here)
      ∙ same_progress (unsent (unable (outcomes (at + 0)))) (suc (at + 0)) (suc (at + 0))
          (if crashed (outcomes at) && bus then suc events else events)
          (events + published bus 1 at) refl (ground arith)
  send_loop-failed bus (suc n) (suc fuel) counter at events h up all enough =
      let counter' = if crashed (outcomes at) then counter else counter - 1 in
      let events' = if crashed (outcomes at) && bus then suc events else events in
      let later : suc at + n ≡ at + suc n = omega arith in
      let up' = ap (λ i. crashed (outcomes i)) later ∙ up in
      let some_left = counted-positive n (suc at) up' in
      step bus fuel counter at events h.0 (ground arith)
      ∙ send_loop-failed bus n fuel counter' (suc at) events' h.1 up' (ground arith) (omega arith)
      ∙ ap
          (λ i. record {
            answer = unsent (unable (outcomes i));
            next = suc i;
            events = events' + published bus (suc n) (suc at);
          })
          later
      ∙ same_progress (unsent (unable (outcomes (at + suc n)))) (suc (at + suc n))
          (suc (at + suc n)) (events' + published bus (suc n) (suc at))
          (events + published bus (suc (suc n)) at) refl (ground arith)

  pub send_loop-once :
      (bus : Bool) (fuel counter at events : ℕ)
      → 0 < fuel
      → failed (outcomes at) ≡ true
      → send_loop outcomes bus false fuel counter at events ≡ record {
        answer = unsent (unable (outcomes at));
        next = suc at;
        events = if crashed (outcomes at) && bus then suc events else events;
      }
  send_loop-once bus zero counter at events enough h = absurd (omega arith)
  send_loop-once bus (suc fuel) counter at events enough h =
      send_loop-given_up bus false fuel counter at events h
        (and-false (ltb 0 (if crashed (outcomes at) then counter else counter - 1)))

  at_start :
      (bus retry : Bool) (counter at events : ℕ)
      → (send_loop outcomes bus retry 0 counter at events).answer ≡ still_sending
  unfolding send_loop
  at_start bus retry counter at events = refl

  pub send_loop-crashed :
      (bus : Bool) (fuel counter at events : ℕ)
      → ((i : ℕ) → (failed (outcomes i) ≡ true) × (crashed (outcomes i) ≡ true))
      → 0 < counter
      → (send_loop outcomes bus true fuel counter at events).answer ≡ still_sending
  send_loop-crashed bus zero counter at events down left = at_start bus true counter at events
  send_loop-crashed bus (suc fuel) counter at events down left =
      let same : (if crashed (outcomes at) then counter else counter - 1) ≡ counter =
        ap (λ b. if b then counter else counter - 1) (down at).1 in
      let left' : 0 < (if crashed (outcomes at) then counter else counter - 1) = rw same left in
      ap (λ p. p.answer) (step bus fuel counter at events (down at).0 left')
      ∙ send_loop-crashed bus fuel _ (suc at) _ down left'
