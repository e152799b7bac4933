-- ===== src/Client.antt =====
-- client/client.go and client/models.go: the requests of the bot to a node, and how they are sent again.
-- `F` is float32 and `X` is what the calls pass on of the types of idena-go's package api.
pub mod Calls
mod Loop
pub mod Retry
pub mod Once
mod Tests
use idena_test_go.Prelude.{
  ℕ, zero, suc, ◌-◌, Bool, true, false, ◌&&◌, ◌||◌, List, [], ◌∷◌, ◌++◌, Option, none, some, String,
  Bytes, codes, ltb, ◌==◌, if◌then◌else◌,
}
use idena_test_go.Prelude.Int.{ℤ, pos}

pub record SendTxArgs (F : Type 0) : Type 0 where
  pub from : String
  pub to : Option String
  pub amount : F
  pub max_fee : Option F
  pub tx_type : ℕ
  pub payload_hex : Option String
  pub use_proto : Bool

pub record SendInviteArgs (F : Type 0) : Type 0 where
  pub to : String
  pub amount : F

pub record BurnArgs (F : Type 0) : Type 0 where
  pub from : String
  pub amount : F
  pub max_fee : F
  pub key : String

pub record FlipAnswer : Type 0 where
  pub answer : ℕ
  pub hash : Bytes
  pub grade : ℕ

pub record FlipSubmitArgs : Type 0 where
  pub private_hex : String
  pub public_hex : String
  pub pair : ℕ

pub record ChangeProfileArgs : Type 0 where
  pub info : Option Bytes
  pub nickname : Option String

-- What a call passes as `Payload`: a slice of one argument, unless it says otherwise.
pub data Payload (F X : Type 0) : Type 0 where
  no_payload : Payload F X
  -- strings, one after the other
  texts : List String → Payload F X
  text_and_flag : String → Bool → Payload F X
  text_and_bytes : String → Bytes → Payload F X
  number : ℤ → Payload F X
  -- the empty struct
  blank : Payload F X
  send_tx_args : SendTxArgs F → Payload F X
  send_invite_args : SendInviteArgs F → Payload F X
  burn_args : BurnArgs F → Payload F X
  submit_answers_args : List FlipAnswer → Payload F X
  flip_submit_args : FlipSubmitArgs → Payload F X
  change_profile_args : ChangeProfileArgs → Payload F X
  store_to_ipfs_tx_args : (cid : String) → Payload F X
  api_args : X → Payload F X

pub record Request (F X : Type 0) : Type 0 where
  pub key : String
  pub method : String
  pub id : ℤ
  pub payload : Payload F X

-- What one attempt comes to: a body; an error of `httpClient.Do`; or an error in reading the body. An
-- error is its text.
pub data Attempt : Type 0 where
  answered : Bytes → Attempt
  undone unread : Bytes → Attempt

pub starts_with : Bytes → Bytes → Bool
starts_with [] s = true
starts_with (b ∷ p) [] = false
starts_with (b ∷ p) (c ∷ s) = b == c && starts_with p s

-- `strings.Contains(s, p)`
pub contains_text : Bytes → Bytes → Bool
unfolding starts_with
contains_text [] p = starts_with p []
contains_text (c ∷ s) p = starts_with p (c ∷ s) || contains_text s p

unfoldable pub is_node_crashed : Bytes → Bool
unfolding contains_text
is_node_crashed e =
    contains_text e (codes "target machine actively refused it")
    || contains_text e (codes "connection refused")

-- The text of the error of an attempt, none where it has a body.
pub error_of : Attempt → Bytes
error_of (answered body) = []
error_of (undone e) = e
error_of (unread e) = codes "unable to read response: " ++ e

pub body_of : Attempt → Bytes
body_of (answered body) = body
body_of _ = []

pub crashed : Attempt → Bool
unfolding is_node_crashed error_of
crashed attempt = is_node_crashed (error_of attempt)

-- The end of `sendRequest`, or none within the fuel; the next attempt; and how many events of a crashed
-- node were published.
pub data Sent : Type 0 where
  sent : Bytes → Sent
  unsent : Bytes → Sent
  still_sending : Sent

pub record Progress (A : Type 0) : Type 0 where
  pub answer : A
  pub next : ℕ
  pub events : ℕ

-- A body ends the loop; after an error it goes on as given.
abbrev after_attempt : Attempt → Progress Sent → Progress Sent → Progress Sent
after_attempt (answered body) now later = now
after_attempt _ now later = later

-- The loop of `sendRequest`, on fuel: `counter` is what is left of its 5 attempts, `at` is the number of
-- the attempts before, and `outcomes at` what the next one comes to.
module _ (outcomes : ℕ → Attempt) (bus retry : Bool) where
  unfoldable pub send_loop : (fuel counter at events : ℕ) → Progress Sent
  unfolding crashed error_of body_of
  send_loop zero counter at events = record { answer = still_sending; next = at; events = events }
  send_loop (suc fuel) counter at events =
      let counter' = if crashed (outcomes at) then counter else counter - 1 in
      let events' = if crashed (outcomes at) && bus then suc events else events in
      let again = send_loop fuel counter' (suc at) events' in
      let given_up : Progress Sent = record {
        answer = unsent (codes "unable to send request: " ++ error_of (outcomes at));
        next = suc at;
        events = events';
      } in
      after_attempt (outcomes at)
        (record { answer = sent (body_of (outcomes at)); next = suc at; events = events })
        (if ltb 0 counter' && retry then again else given_up)

-- A decoded response: its `Result`, and the message of its `Error`.
pub record Reply (R : Type 0) : Type 0 where
  pub result : R
  pub error : Option Bytes

-- The end of a call: its result; the message of an error of the node; an error of the transport; a body
-- that is no response; a result that is no string where the code asserts one, which panics; or none
-- within the fuel.
pub data Answer (R : Type 0) : Type 0 where
  done : R → Answer R
  refused : Bytes → Answer R
  not_sent : Bytes → Answer R
  unreadable : Answer R
  not_text : Answer R
  unfinished : Answer R

pub not_available : Option Bytes → Bool
unfolding contains_text
not_available none = false
not_available (some message) = contains_text message (codes "does not exist/is not available")

-- A client with its node: what the attempts of a request come to, given its timeout in seconds, and how
-- a body is decoded into a result that is there already; both are outside the program. `fuel` bounds
-- the loops.
pub record Client (F X R : Type 0) : Type 0 where
  pub api_key : String
  pub bus : Bool
  pub outcomes : Request F X → ℕ → ℕ → Attempt
  pub decode : Bytes → R → Option (Reply R)
  pub empty : R
  pub fuel : ℕ

module _ {F X R : Type 0} (c : Client F X R) (req : Request F X) (timeout_sec : ℕ)
    (retry : Bool) where
  -- `sendRequest`
  unfoldable pub send_request : ℕ → ℕ → Progress Sent
  unfolding send_loop
  send_request at events = send_loop (c.outcomes req timeout_sec) c.bus retry c.fuel 5 at events

  -- What is done with the end of `sendRequest`: `again` is the next call of the function by itself.
  abbrev pub parse_response :
      Progress Sent → R → (R → ℕ → ℕ → Progress (Answer R)) → Progress (Answer R)
  parse_response p result again =
      let end_with : Answer R → Progress (Answer R) =
        λ a. record { answer = a; next = p.next; events = p.events } in
      elim p.answer [
        | sent body ↦ elim (c.decode body result) [
          | none ↦ end_with unreadable
          | some reply ↦
              if not_available reply.error
              then again reply.result p.next p.events
              else elim reply.error [
                | none ↦ end_with (done reply.result)
                | some message ↦ end_with (refused message)
              ]
        ]
        | unsent e ↦ end_with (not_sent e)
        | still_sending ↦ end_with unfinished
      ]

  -- `sendRequestAndParseResponse`, and the test of `resp.Error` that follows each call of it.
  unfoldable pub call_loop : ℕ → R → ℕ → ℕ → Progress (Answer R)
  unfolding send_request not_available
  call_loop zero result at events = record { answer = unfinished; next = at; events = events }
  call_loop (suc rounds) result at events =
      parse_response (send_request at events) result (call_loop rounds)

module _ {F X R : Type 0} (c : Client F X R) where
  unfoldable pub request_of : String → Payload F X → Request F X
  request_of method payload = record {
    key = c.api_key;
    method = method;
    id = pos 1;
    payload = payload;
  }

  -- A method of the client, whose result is decoded into `resp.Result`.
  unfoldable pub call : String → Payload F X → ℕ → Bool → Progress (Answer R)
  unfolding call_loop request_of
  call method payload timeout_sec retry =
      call_loop c (request_of method payload) timeout_sec retry c.fuel c.empty 0 0
