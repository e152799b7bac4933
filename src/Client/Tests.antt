-- ===== src/Client/Tests.antt =====
-- Runs of the client against a node that is given.
use idena_test_go.Prelude.{
  ℕ, zero, suc, ◌+◌, ◌≡◌, refl, Bool, true, false, [], ◌∷◌, Option, none, some, Bytes, codes, All,
  arith,
}
use idena_test_go.Prelude.Int.{pos}
use idena_test_go.Prelude.Float.{Float}
use idena_test_go.Client.{
  Attempt, answered, undone, unread, sent, unsent, still_sending, Reply, done, Client, Request,
  no_payload, send_request, call, send_loop,
}
use idena_test_go.Client.Loop.{unable}
use idena_test_go.Client.Retry.{
  send_request-answered, send_request-failed, send_request-crashed, call-available,
}
use idena_test_go.Client.Once.{sending_attempts, sending_attempts_lem}

abbrev refused_connection : Bytes
refused_connection = codes "connection refused"

-- A node that is down for two attempts, drops one, and then answers.
abbrev late : ℕ → Attempt
late zero = undone refused_connection
late (suc zero) = undone refused_connection
late (suc (suc zero)) = unread (codes "EOF")
late (suc (suc (suc n))) = answered (codes "ok")

-- A body is a result, or says that the method is not available.
abbrev read : Bytes → ℕ → Option (Reply ℕ)
read [] n =
    some (record { result = n + 1; error = some (codes "it does not exist/is not available") })
read (b ∷ bs) n = some (record { result = n + 7; error = none })

abbrev client_of : (ℕ → Attempt) → Client Bool Bool ℕ
client_of attempts = record {
  api_key = "key";
  bus = true;
  outcomes = λ req t. attempts;
  decode = read;
  empty = 0;
  fuel = 8;
}

abbrev epoch_request : Request Bool Bool
epoch_request = record { key = "key"; method = "dna_epoch"; id = pos 1; payload = no_payload }

test_call :
    call (client_of late) "dna_epoch" no_payload 10 true
    ≡ record { answer = done 7; next = 4; events = 2 }
unfolding call
test_call = refl

send_request-answered_example :
    send_request (client_of late) epoch_request 10 true 0 0
    ≡ record { answer = sent (codes "ok"); next = 4; events = 2 }
unfolding send_loop
send_request-answered_example =
    send_request-answered (client_of late) epoch_request 10 0 0 3 (codes "ok")
      (refl, (refl, (refl, tt))) refl (omega arith) (omega arith)

-- A node that is down for one attempt and drops every other.
abbrev dropping : ℕ → Attempt
dropping zero = undone refused_connection
dropping (suc n) = unread (codes "EOF")

send_request-failed_example :
    send_request (client_of dropping) epoch_request 10 true 0 0
    ≡ record { answer = unsent (unable (unread (codes "EOF"))); next = 6; events = 1 }
unfolding send_loop
send_request-failed_example =
    send_request-failed (client_of dropping) epoch_request 10 0 0 5
      (refl, (refl, (refl, (refl, (refl, (refl, tt)))))) refl refl (omega arith)

abbrev down : ℕ → Attempt
down n = undone refused_connection

send_request-crashed_example :
    (send_request (client_of down) epoch_request 10 true 0 0).answer ≡ still_sending
unfolding send_loop
send_request-crashed_example =
    send_request-crashed (client_of down) epoch_request 10 0 0 (λ i. (refl, refl))

-- A node whose method becomes available at the third attempt.
abbrev starting : ℕ → Attempt
starting zero = answered []
starting (suc zero) = answered []
starting (suc (suc n)) = answered (codes "ok")

call-available_example :
    call (client_of starting) "dna_burn" no_payload 10 false
    ≡ record { answer = done 9; next = 3; events = 0 }
unfolding call
call-available_example =
    call-available (client_of starting) "dna_burn" no_payload 10 false 2 2 9 (codes "ok")
      (
        [],
        record { result = 1; error = some (codes "it does not exist/is not available") },
        refl,
        refl,
        refl,
        (
          [],
          record { result = 2; error = some (codes "it does not exist/is not available") },
          refl,
          refl,
          refl,
          refl,
        ),
      )
      refl refl (omega arith)

instance bool_float : Float Bool
bool_float = record { zero = false; one = true; add = λ a b. a; less = λ a b. b }

sending_attempts_lem_example :
    All
      (λ attempts. attempts ≡ 1)
      (sending_attempts
        (client_of down)
        (λ n. some "tx")
        (λ bytes. "0x")
        "to"
        "hash"
        true
        false
        true
        []
        []
        none
        0)
unfolding send_loop
sending_attempts_lem_example =
    sending_attempts_lem (client_of down) (λ n. some "tx") (λ bytes. "0x") "to" "hash" true false
      true [] [] none 0 (omega arith) (λ req t. refl)
