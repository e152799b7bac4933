-- ===== src/Api.antt =====
-- api/api.go, api/server.go and process/api.go: the HTTP API of the god bot, with the pools that new
-- users are delegated to.
mod Tests
pub mod Pools
use idena_test_go.Prelude.{
  ℕ, zero, suc, ◌+◌, ◌-◌, ◌/◌, ◌%◌, Bool, true, false, ◌&&◌, ◌||◌, not, List, [], ◌∷◌, ◌++◌, map,
  Option, none, some, Bytes, codes, length, get_elem?, ltb, leb, ◌==◌, if◌then◌else◌,
}
use idena_test_go.Prelude.Int.{ℤ, pos, negsuc, ◌+ℤ◌, ltb_ℤ, ◌==ℤ◌}
use idena_test_go.Prelude.Result.{
  Result, ok, err, panic, ◌>>=◌, index_out_of_range, no_god_node, no_god_user, no_god_address,
  no_boot_node, no_ceremony_time,
}
use idena_test_go.Scenario.Nums.{split}
use idena_test_go.Process.Flips.{same_text}

-- `strings.Join(texts, ",")`
unfoldable pub join : List Bytes → Bytes
join [] = []
join (text ∷ []) = text
join (text ∷ other ∷ texts) = text ++ (b',' ∷ join (other ∷ texts))

-- `strconv.FormatInt(z, 10)`. The fuel is above the number of digits.
decimal : (fuel n : ℕ) → Bytes → Bytes
decimal zero n digits = digits
decimal (suc fuel) n digits =
    let more = (b'0' + n % 10) ∷ digits in
    let rest = decimal fuel (n / 10) more in if ltb n 10 then more else rest

unfoldable pub format_int : ℤ → Bytes
unfolding decimal
format_int (pos n) = decimal (suc n) n []
format_int (negsuc n) = b'-' ∷ decimal (suc (suc n)) (suc n) []

-- `strings.Replace(s, old, new, 1)`, for a text `old` that is not empty.
drop_prefix : Bytes → Bytes → Option Bytes
drop_prefix [] s = some s
drop_prefix (c ∷ old) [] = none
drop_prefix (c ∷ old) (d ∷ s) = let rest = drop_prefix old s in if c == d then rest else none

pub replace_first : (s old new : Bytes) → Bytes
unfolding drop_prefix
replace_first [] old new = []
replace_first (c ∷ s) old new =
    let rest = replace_first s old new in
    elim (drop_prefix old (c ∷ s)) [ none ↦ c ∷ rest | some tail ↦ new ++ tail ]

-- What the API reads of the process. Keys are those that `identities` exports, encrypted by idena-go.
pub record God : Type 0 where
  pub god_address : Bytes
  pub ipfs_boot_node : Bytes
  pub god_host : Bytes
  pub god_mode : Bool
  pub has_god_user : Bool
  pub ceremony_time : ℤ
  pub test_index : ℕ
  pub fails_are_warnings : Bool
  pub keys : List Bytes

pub data Notice : Type 0 where
  -- a warning in the log, or the exit of the process two seconds later
  warning failure : Bytes → Notice

-- `poolsCtx`, where `count n` is `int(float64(n) * rate)`.
pub record PoolsCtx : Type 0 where
  pub pool_sizes : List ℤ
  pub pool_addresses : List Bytes
  pub count : ℕ → ℤ

-- The state of the server; the addresses that the god user has been asked to invite, and the notices; and
-- what `fmt.Fprintf` writes for a text that it is given as its format.
pub record Server : Type 0 where
  pub god : God
  pub pools : Option PoolsCtx
  pub invited : List Bytes
  pub notices : List Notice
  pub printed : Bytes → Bytes

-- `GetGodAddress`, `toExternal`, `GetIpfsBootNode`, `GetCeremonyTime` and `GetEpoch` of the process.
pub get_god_address : God → Result Bytes
get_god_address g = if length g.god_address == 0 then err no_god_address else ok g.god_address

pub to_external : God → Bytes → Bytes
unfolding replace_first
to_external g host =
    let local = replace_first host (codes "localhost") g.god_host in
    replace_first (replace_first local (codes "0.0.0.0") g.god_host) (codes "127.0.0.1") g.god_host

pub get_ipfs_boot_node : God → Result Bytes
unfolding to_external
get_ipfs_boot_node g =
    if length g.ipfs_boot_node == 0 then err no_boot_node else ok (to_external g g.ipfs_boot_node)

pub get_ceremony_time : God → Result Bytes
unfolding format_int
get_ceremony_time g =
    if g.ceremony_time ==ℤ pos 0 then err no_ceremony_time else ok (format_int g.ceremony_time)

pub get_epoch : God → Bytes
unfolding format_int
get_epoch g = format_int (pos (g.test_index % 0x1_0000))

-- `RequestInvites`: the addresses that an invite is sent to. An error of the node is only logged.
unfoldable pub request_invites : God → List Bytes → Result (List Bytes)
request_invites g addresses =
    if not g.god_mode
    then err no_god_node
    else if not g.has_god_user
    then err no_god_user
    else ok addresses

-- The inner loop of `createInvites`: the first pool with a size above 0, and the sizes after one is
-- taken from it.
unfoldable pub take_slot : List ℤ → Option (ℕ × List ℤ)
take_slot [] = none
take_slot (size ∷ sizes) =
    let rest = take_slot sizes in
    if ltb_ℤ (pos 0) size
    then some (0, (size +ℤ negsuc 0) ∷ sizes)
    else elim rest [ none ↦ none | some (i, sizes') ↦ some (suc i, size ∷ sizes') ]

abbrev pub with_delegatee : Bytes → List ℤ × Result (List Bytes) → List ℤ × Result (List Bytes)
with_delegatee delegatee (sizes, delegatees) =
    (sizes, delegatees >>= (λ rest. ok (delegatee ∷ rest)))

-- The outer loop, from the `i`-th address on: the sizes that it leaves, also where it panics, and the
-- delegatees.
unfoldable pub assign :
    (owners addresses : List Bytes) → (n i : ℕ) → List ℤ → List ℤ × Result (List Bytes)
unfolding take_slot
assign owners addresses zero i sizes = (sizes, ok [])
assign owners addresses (suc n) i sizes = elim (take_slot sizes) [
  | none ↦ assign owners addresses n (suc i) sizes
  | some (idx, sizes') ↦ elim (get_elem? owners idx) [
    | none ↦ (sizes', panic index_out_of_range)
    | some delegatee ↦ elim (get_elem? addresses i) [
      | none ↦ (sizes', panic index_out_of_range)
      | some delegator ↦ with_delegatee delegatee (assign owners addresses n (suc i) sizes')
    ]
  ]
]

-- How often the outer loop runs: `n`, or once if `n` is 0.
abbrev pub runs : ℤ → ℕ
runs (pos zero) = 1
runs (pos (suc n)) = suc n
runs (negsuc n) = 0

abbrev pub response_of : List Bytes → Bytes
response_of [] = codes "OK"
response_of (delegatee ∷ delegatees) = join (delegatee ∷ delegatees)

-- The first address of a request becomes the owner of the next pool.
abbrev pub register : PoolsCtx → List Bytes → PoolsCtx × Result Bytes
register ctx [] = (ctx, panic index_out_of_range)
register ctx (address ∷ addresses) =
    (record ctx { pool_addresses = ctx.pool_addresses ++ (address ∷ []) }, ok (codes "OK"))

-- The pools after a request for some addresses, and the response.
unfoldable pub update_pools : PoolsCtx → List Bytes → PoolsCtx × Result Bytes
unfolding assign
update_pools ctx addresses =
    if ltb (length ctx.pool_addresses) (length ctx.pool_sizes)
    then register ctx addresses
    else (let (sizes, delegatees) =
          assign ctx.pool_addresses addresses (runs (ctx.count (length addresses))) 0
            ctx.pool_sizes in
        (record ctx { pool_sizes = sizes }, delegatees >>= (λ ds. ok (response_of ds))))

-- `createInvites` after the invites have been sent, by the pools that there are.
unfoldable pub pools_answer : Server → Option PoolsCtx → List Bytes → Server × Result Bytes
unfolding update_pools
pools_answer s none addresses = (s, ok (codes "OK"))
pools_answer s (some ctx) addresses =
    let (ctx', response) = update_pools ctx addresses in (record s { pools = some ctx' }, response)

unfoldable pub invites_answer : Server → Result (List Bytes) → Server × Result Bytes
unfolding pools_answer
invites_answer s (err e) = (s, err e)
invites_answer s (panic x) = (s, panic x)
invites_answer s (ok addresses) =
    pools_answer (record s { invited = s.invited ++ addresses }) s.pools addresses

-- `createInvites`, for the value of the form's field.
unfoldable pub create_invites : Server → Bytes → Server × Result Bytes
unfolding request_invites invites_answer
create_invites s value = invites_answer s (request_invites s.god (split value b','))

-- `SendFailNotification` and `SendWarnNotification`, after the process has waited.
pub notify : Server → Notice → Server × Result Bytes
notify s notice = (record s { notices = s.notices ++ (notice ∷ []) }, ok (codes "OK"))

abbrev pub fail_notice : God → Bytes → Notice
fail_notice g message = if g.fails_are_warnings then warning message else failure message

-- `identities`: a numbered line for each user.
numbered : ℕ → List Bytes → Bytes
unfolding format_int
numbered i [] = []
numbered i (key ∷ keys) =
    format_int (pos i) ++ (codes ". " ++ (key ++ (13 ∷ 10 ∷ numbered (suc i) keys)))

pub data Route : Type 0 where
  god_address ipfs_boot_node invites ceremony_time epoch : Route
  fail_notification warn_notification identities : Route

-- The handlers that `NewHttpServer` registers.
unfoldable pub route_of : Bytes → Option Route
unfolding same_text
route_of path =
    if same_text path (codes "/api/GetGodAddress")
    then some god_address
    else if same_text path (codes "/api/GetIpfsBootNode")
    then some ipfs_boot_node
    else if same_text path (codes "/api/CreateInvites")
    then some invites
    else if same_text path (codes "/api/GetCeremonyTime")
    then some ceremony_time
    else if same_text path (codes "/api/GetEpoch")
    then some epoch
    else if same_text path (codes "/api/SendFailNotification")
    then some fail_notification
    else if same_text path (codes "/api/SendWarnNotification")
    then some warn_notification
    else if same_text path (codes "/api/Identities")
    then some identities
    else none

-- A handler, for the value of the form's field that it reads.
unfoldable pub handle : Route → Server → Bytes → Server × Result Bytes
unfolding create_invites notify numbered get_god_address get_ipfs_boot_node get_ceremony_time
    get_epoch
handle god_address s value = (s, get_god_address s.god)
handle ipfs_boot_node s value = (s, get_ipfs_boot_node s.god)
handle invites s value = create_invites s value
handle ceremony_time s value = (s, get_ceremony_time s.god)
handle epoch s value = (s, ok (get_epoch s.god))
handle fail_notification s value = notify s (fail_notice s.god value)
handle warn_notification s value = notify s (warning value)
handle identities s value = (s, ok (numbered 1 s.god.keys))

-- What the client gets: a page, the status 500, or nothing where the handler panics.
pub data Response : Type 0 where
  page : Bytes → Response
  status_500 aborted : Response

abbrev pub respond : (Bytes → Bytes) → Result Bytes → Response
respond printed (ok []) = status_500
respond printed (ok (b ∷ text)) = page (printed (b ∷ text))
respond printed (err e) = status_500
respond printed (panic x) = aborted

-- `handleRequest`, for a request whose form can be parsed.
unfoldable pub handle_request : Server → (path value : Bytes) → Server × Response
unfolding route_of handle same_text
handle_request s path value =
    if same_text path (codes "/favicon.ico") then (s, page []) else elim (route_of path) [
      | none ↦ (s, status_500)
      | some route ↦ let (s', result) = handle route s value in (s', respond s.printed result)
    ]
