-- ===== src/Client/Retry.antt =====
-- client/client.go: how often a request is sent, and what the last attempt decides.
use idena_test_go.Prelude.{
  ℕ, zero, suc, ◌+◌, ◌<◌, ◌≡◌, refl, sym, ap, ◌∙◌, Bool, true, false, ◌&&◌, none, some, String,
  Bytes, arith, if◌then◌else◌,
}
use idena_test_go.Client.{
  answered, crashed, sent, unsent, still_sending, Reply, done, not_sent, not_available, Client,
  Request, Payload, send_request, call_loop, request_of, call, parse_response,
}
use idena_test_go.Client.Loop.{
  failed, unable, counted, published, AllFail, same_progress, send_loop-first, send_loop-answered,
  send_loop-failed, send_loop-once, send_loop-crashed,
}

-- A request with retries gets the body of the first attempt that has one, if fewer than five of the
-- attempts before it failed on a node that is up, however many failed on a crashed node. It is sent no
-- more than that, an event is published for each attempt on a crashed node if there is a bus, and a
-- fuel above the number of failures is enough.
pub send_request-answered :
    {F X R : Type 0} (c : Client F X R) (req : Request F X) (timeout_sec at events n : ℕ)
    (body : Bytes)
    → AllFail (c.outcomes req timeout_sec) n at
    → c.outcomes req timeout_sec (at + n) ≡ answered body
    → counted (c.outcomes req timeout_sec) n at < 5
    → n < c.fuel
    → send_request c req timeout_sec true at events ≡ record {
      answer = sent body;
      next = suc (at + n);
      events = events + published (c.outcomes req timeout_sec) c.bus n at;
    }
unfolding send_request
send_request-answered c req timeout_sec at events n body =
    send_loop-answered (c.outcomes req timeout_sec) c.bus n c.fuel 5 at events body

-- A request with retries fails with the error of the attempt that is its fifth failure on a node that is
-- up, if no attempt until then has a body. An event is published for each attempt on a crashed node
-- if there is a bus, and a fuel that is at least the number of attempts is enough.
pub send_request-failed :
    {F X R : Type 0} (c : Client F X R) (req : Request F X) (timeout_sec at events n : ℕ)
    → AllFail (c.outcomes req timeout_sec) (suc n) at
    → crashed (c.outcomes req timeout_sec (at + n)) ≡ false
    → counted (c.outcomes req timeout_sec) (suc n) at ≡ 5
    → n < c.fuel
    → send_request c req timeout_sec true at events ≡ record {
      answer = unsent (unable (c.outcomes req timeout_sec (at + n)));
      next = suc (at + n);
      events = events + published (c.outcomes req timeout_sec) c.bus (suc n) at;
    }
unfolding send_request
send_request-failed c req timeout_sec at events n =
    send_loop-failed (c.outcomes req timeout_sec) c.bus n c.fuel 5 at events

-- While every attempt fails on a crashed node, a request with retries does not end, whatever the fuel.
pub send_request-crashed :
    {F X R : Type 0} (c : Client F X R) (req : Request F X) (timeout_sec at events : ℕ)
    → ((i : ℕ)
        → (failed (c.outcomes req timeout_sec i) ≡ true)
          × (crashed (c.outcomes req timeout_sec i) ≡ true))
    → (send_request c req timeout_sec true at events).answer ≡ still_sending
unfolding send_request
send_request-crashed c req timeout_sec at events down =
    send_loop-crashed (c.outcomes req timeout_sec) c.bus c.fuel 5 at events down (omega arith)

failed_once :
    {F X R : Type 0} (c : Client F X R) (req : Request F X) (timeout_sec at events : ℕ)
    → 0 < c.fuel
    → failed (c.outcomes req timeout_sec at) ≡ true
    → send_request c req timeout_sec false at events ≡ record {
      answer = unsent (unable (c.outcomes req timeout_sec at));
      next = suc at;
      events = if crashed (c.outcomes req timeout_sec at) && c.bus then suc events else events;
    }
unfolding send_request
failed_once c req timeout_sec at events =
    send_loop-once (c.outcomes req timeout_sec) c.bus c.fuel 5 at events

call_loop-unsent :
    {F X R : Type 0} (c : Client F X R) (req : Request F X) (timeout_sec rounds : ℕ) (result : R)
    (at events : ℕ) (e : Bytes) (at' events' : ℕ)
    → 0 < rounds
    → send_request c req timeout_sec false at events
      ≡ record { answer = unsent e; next = at'; events = events' }
    → call_loop c req timeout_sec false rounds result at events
      ≡ record { answer = not_sent e; next = at'; events = events' }
unfolding call_loop
call_loop-unsent c req timeout_sec zero result at events e at' events' more h = absurd (omega arith)
call_loop-unsent c req timeout_sec (suc rounds) result at events e at' events' more h = rw h refl

-- A call without retries sends its request once where the attempt fails: it ends with the error of that
-- attempt, whatever the error is, and an event is published if it is that of a crashed node and there
-- is a bus.
pub call-once :
    {F X R : Type 0} (c : Client F X R) (method : String) (payload : Payload F X) (timeout_sec : ℕ)
    → 0 < c.fuel
    → failed (c.outcomes (request_of c method payload) timeout_sec 0) ≡ true
    → call c method payload timeout_sec false ≡ record {
      answer = not_sent (unable (c.outcomes (request_of c method payload) timeout_sec 0));
      next = 1;
      events =
          if crashed (c.outcomes (request_of c method payload) timeout_sec 0) && c.bus
          then 1
          else 0;
    }
unfolding call
call-once c method payload timeout_sec enough h =
    call_loop-unsent c (request_of c method payload) timeout_sec c.fuel c.empty 0 0 _ 1 _ enough
      (failed_once c (request_of c method payload) timeout_sec 0 0 enough h)

module _ {F X R : Type 0} (c : Client F X R) (req : Request F X) (timeout_sec : ℕ) where
  -- The next `k` attempts have bodies which say that the method is not available; `result` is the
  -- result before them and `result'` the one after them.
  abbrev pub Waits : ℕ → ℕ → R → R → Type 0
  Waits zero at result result' = result ≡ result'
  Waits (suc k) at result result' =
      (body : Bytes) × (reply : Reply R) × (c.outcomes req timeout_sec at ≡ answered body)
      × (c.decode body result ≡ some reply)
      × (not_available reply.error ≡ true)
      × Waits k (suc at) reply.result result'

  request-body :
      (retry : Bool) (at events : ℕ) (body : Bytes)
      → 0 < c.fuel
      → c.outcomes req timeout_sec at ≡ answered body
      → send_request c req timeout_sec retry at events
        ≡ record { answer = sent body; next = suc at; events = events }
  unfolding send_request
  request-body retry at events body =
      send_loop-first (c.outcomes req timeout_sec) c.bus retry c.fuel 5 at events body

  call_loop-available :
      (retry : Bool) (k rounds at : ℕ) (result result' final : R) (body : Bytes)
      → Waits k at result result'
      → c.outcomes req timeout_sec (at + k) ≡ answered body
      → c.decode body result' ≡ some (record { result = final; error = none })
      → k < rounds
      → 0 < c.fuel
      → call_loop c req timeout_sec retry rounds result at 0
        ≡ record { answer = done final; next = suc (at + k); events = 0 }
  unfolding call_loop not_available
  call_loop-available retry k zero at result result' final body w a d more enough =
      absurd (omega arith)
  call_loop-available retry zero (suc rounds) at result result' final body w a d more enough =
      let here : at + 0 ≡ at = omega arith in
      let a' : c.outcomes req timeout_sec at ≡ answered body =
        ap (c.outcomes req timeout_sec) (sym here) ∙ a in
      let d' : c.decode body result ≡ some (record { result = final; error = none }) =
        ap (c.decode body) w ∙ d in
      let got = request-body retry at 0 body enough a' in
      rw (parse_response, got, d', got, here) refl
  call_loop-available retry (suc k) (suc rounds) at result result' final body w a d more enough =
      let (waiting, reply, a', d', away, rest) = w in
      let later : suc at + k ≡ at + suc k = omega arith in
      let got = request-body retry at 0 waiting enough a' in
      rw (parse_response, got, d', away, got)
        (call_loop-available retry k rounds (suc at) reply.result result' final body rest
            (ap (c.outcomes req timeout_sec) later ∙ a) d (omega arith) enough
          ∙ same_progress (done final) (suc (suc at + k)) (suc (at + suc k)) 0 0 (omega arith) refl)

-- A call, also one without retries, is repeated for as long as the node says that the method is not
-- available, and then ends with the result of the first body that has no error. It is sent once for
-- each of these answers and once more, and a fuel above their number is enough.
pub call-available :
    {F X R : Type 0} (c : Client F X R) (method : String) (payload : Payload F X) (timeout_sec : ℕ)
    (retry : Bool) (k : ℕ) (result' final : R) (body : Bytes)
    → Waits c (request_of c method payload) timeout_sec k 0 c.empty result'
    → c.outcomes (request_of c method payload) timeout_sec (0 + k) ≡ answered body
    → c.decode body result' ≡ some (record { result = final; error = none })
    → k < c.fuel
    → call c method payload timeout_sec retry
      ≡ record { answer = done final; next = suc (0 + k); events = 0 }
unfolding call
call-available c method payload timeout_sec retry k result' final body w a d more =
    call_loop-available c (request_of c method payload) timeout_sec retry k c.fuel 0 c.empty result'
      final body w a d more (omega arith)
