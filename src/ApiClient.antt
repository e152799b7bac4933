-- ===== src/ApiClient.antt =====
-- apiclient/client.go: how a bot asks the god bot over HTTP.
mod Tests
pub mod Sending
pub mod Delivery
use idena_test_go.Prelude.{
  ℕ, zero, suc, ◌%◌, ◌-◌, Bool, true, false, List, [], ◌∷◌, Option, none, some, Bytes, codes, ◌==◌,
  if◌then◌else◌,
}
use idena_test_go.Prelude.Int.{ℤ, pos, negsuc}
use idena_test_go.Scenario.Nums.{split, atoi}
use idena_test_go.Process.Flips.{same_text}
use idena_test_go.Api.{join}

-- A request: the path, and the field of the query besides `reqId`, if there is one.
pub record Request : Type 0 where
  pub path : Bytes
  pub field : Option (Bytes × Bytes)

-- What one attempt comes to: an error of `httpClient.Do`, or a status and the body, none if it cannot be
-- read.
pub data Attempt : Type 0 where
  undone : Attempt
  responded : (status : ℕ) (body : Option Bytes) → Attempt

abbrev pub is_ok : Attempt → Bool
is_ok undone = false
is_ok (responded status body) = status == 200

abbrev pub body_of : Attempt → Option Bytes
body_of undone = none
body_of (responded status body) = body

-- The loop of `sendRequest`, with `counter` attempts left.
unfoldable pub send_loop : (ℕ → Attempt) → (counter at : ℕ) → Option Bytes
send_loop outcomes zero at = none
send_loop outcomes (suc counter) at =
    let rest = send_loop outcomes counter (suc at) in
    if is_ok (outcomes at) then body_of (outcomes at) else rest

-- What each attempt for a request comes to.
abbrev pub Network : Type 0
Network = Request → ℕ → Attempt

-- `sendRequest`: the body, or none for an error.
unfoldable pub send_request : Network → Request → Option Bytes
unfolding send_loop
send_request network request = send_loop (network request) 10 0

abbrev pub plain : Bytes → Request
plain path = record { path = path; field = none }

unfoldable pub get_god_address : Network → Option Bytes
unfolding send_request
get_god_address network = send_request network (plain (codes "/api/GetGodAddress"))

unfoldable pub get_boot_node : Network → Option Bytes
unfolding send_request
get_boot_node network = send_request network (plain (codes "/api/GetBootNode"))

unfoldable pub get_ipfs_boot_node : Network → Option Bytes
unfolding send_request
get_ipfs_boot_node network = send_request network (plain (codes "/api/GetIpfsBootNode"))

abbrev pub invites_request : List Bytes → Request
invites_request addresses = record {
  path = codes "/api/CreateInvites";
  field = some (codes "addresses", join addresses);
}

-- `CreateInvites` after the response: the delegatees, nil where the response is "OK".
unfoldable pub delegatees_of : Bytes → List Bytes
unfolding same_text
delegatees_of response = if same_text response (codes "OK") then [] else split response b','

unfoldable pub create_invites : Network → List Bytes → Option (List Bytes)
unfolding send_request delegatees_of
create_invites network addresses = elim (send_request network (invites_request addresses)) [
  | none ↦ none
  | some response ↦ some (delegatees_of response)
]

abbrev pub number_of : Option Bytes → Option ℤ
number_of none = none
number_of (some text) = atoi text

-- `strconv.ParseInt(text, 10, 64)` is `strconv.Atoi` for the 64-bit int.
pub get_ceremony_time : Network → Option ℤ
unfolding send_request
get_ceremony_time network = number_of (send_request network (plain (codes "/api/GetCeremonyTime")))

-- `uint16(z)`
abbrev pub to_uint16 : ℤ → ℕ
to_uint16 (pos n) = n % 0x1_0000
to_uint16 (negsuc n) = 0xffff - n % 0x1_0000

abbrev pub epoch_of : Option ℤ → Option ℕ
epoch_of none = none
epoch_of (some z) = some (to_uint16 z)

pub get_epoch : Network → Option ℕ
unfolding send_request
get_epoch network = epoch_of (number_of (send_request network (plain (codes "/api/GetEpoch"))))

-- Whether the notification has been sent without an error.
abbrev pub is_sent : Option Bytes → Bool
is_sent none = false
is_sent (some body) = true

abbrev pub message_request : Bytes → Bytes → Request
message_request path message = record { path = path; field = some (codes "message", message) }

pub send_fail_notification : Network → Bytes → Bool
unfolding send_request
send_fail_notification network message =
    is_sent (send_request network (message_request (codes "/api/SendFailNotification") message))

pub send_warn_notification : Network → Bytes → Bool
unfolding send_request
send_warn_notification network message =
    is_sent (send_request network (message_request (codes "/api/SendWarnNotification") message))
