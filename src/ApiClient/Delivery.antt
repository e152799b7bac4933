-- ===== src/ApiClient/Delivery.antt =====
-- apiclient/client.go with api/api.go: the delegatees that a bot gets are those that the god bot has chosen.
use idena_test_go.Prelude.{
  ℕ, zero, suc, ◌≤◌, ◌<◌, ◌≡◌, ◌≢◌, refl, ap, ◌∙◌, true, false, List, [], ◌∷◌, ◌++◌, some, Bytes,
  codes, length, take, repeat, All, All-append, arith,
}
use idena_test_go.Prelude.Int.{ℤ, pos_part}
use idena_test_go.Prelude.Result.{ok}
use idena_test_go.Scenario.Nums.{split}
use idena_test_go.Scenario.Nums.Pieces.{Lacks}
use idena_test_go.Scenario.Nums.RoundTrip.{split-Lacks, split-append}
use idena_test_go.Process.Flips.{same_text}
use idena_test_go.Api.{
  join, PoolsCtx, God, Server, pools_answer, invites_answer, response_of, create_invites,
  request_invites, Response, page, status_500, aborted, handle_request, respond,
}
use idena_test_go.Api.Pools.{places, queue, asked_for, update_pools-queue}
use idena_test_go.ApiClient.{
  Attempt, is_ok, body_of, undone, responded, Network, invites_request, delegatees_of,
  create_invites as client_create_invites,
}
use idena_test_go.ApiClient.Sending.{AllFail, send_request-first}

-- An address: it begins with "0", as in "0x...", and has no comma and no percent sign.
abbrev pub IsAddress : Bytes → Type 0
IsAddress address =
    ((rest : Bytes) × (address ≡ b'0' ∷ rest)) × Lacks b',' address × Lacks b'%' address

split-join :
    (address : Bytes) (addresses : List Bytes)
    → All IsAddress (address ∷ addresses)
    → split (join (address ∷ addresses)) b',' ≡ address ∷ addresses
unfolding join
split-join address [] h = split-Lacks address b',' h.0.1
split-join address (other ∷ addresses) h =
    split-append address (join (other ∷ addresses)) b',' h.0.1
    ∙ ap (λ parts. address ∷ parts) (split-join other addresses h.1)

Lacks-join :
    (address : Bytes) (addresses : List Bytes)
    → All IsAddress (address ∷ addresses)
    → Lacks b'%' (join (address ∷ addresses))
unfolding join
Lacks-join address [] h = h.0.2
Lacks-join address (other ∷ addresses) h =
    All-append (λ c. c ≢ b'%') address (b',' ∷ join (other ∷ addresses)) h.0.2
      ((λ bad. omega arith), Lacks-join other addresses h.1)

first_of_join :
    (address : Bytes) (addresses : List Bytes)
    → All IsAddress (address ∷ addresses)
    → (rest : Bytes) × (join (address ∷ addresses) ≡ b'0' ∷ rest)
unfolding join
first_of_join address [] h = h.0.0
first_of_join address (other ∷ addresses) h =
    let (rest, e) = h.0.0 in (rest ++ (b',' ∷ join (other ∷ addresses)), rw e refl)

-- The bot reads the delegatees back from the response.
delegatees_of-response_of :
    (delegatees : List Bytes)
    → All IsAddress delegatees
    → delegatees_of (response_of delegatees) ≡ delegatees
unfolding delegatees_of
delegatees_of-response_of [] h = refl
delegatees_of-response_of (delegatee ∷ delegatees) h =
    let (rest, e) = first_of_join delegatee delegatees h in
    let is_list : same_text (join (delegatee ∷ delegatees)) (codes "OK") ≡ false = rw e refl in
    rw is_list (split-join delegatee delegatees h)

-- The page that the god bot writes is the response, if a text without a percent sign is printed as it is.
page-response_of :
    (printed : Bytes → Bytes) (delegatees : List Bytes)
    → ((text : Bytes) → Lacks b'%' text → printed text ≡ text)
    → All IsAddress delegatees
    → respond printed (ok (response_of delegatees)) ≡ page (response_of delegatees)
page-response_of printed [] plain h =
    ap page (plain (codes "OK") ((λ bad. omega arith), ((λ bad. omega arith), tt)))
page-response_of printed (delegatee ∷ delegatees) plain h =
    let (rest, e) = first_of_join delegatee delegatees h in
    let lacks = Lacks-join delegatee delegatees h in
    let same : printed (b'0' ∷ rest) ≡ b'0' ∷ rest = plain (b'0' ∷ rest) (rw e at lacks) in
    rw (e, same) refl

module _ (P : Bytes → Type 0) where
  All-take : (n : ℕ) (xs : List Bytes) → All P xs → All P (take n xs)
  All-take zero xs h = tt
  All-take (suc n) [] h = tt
  All-take (suc n) (x ∷ xs) h = (h.0, All-take n xs h.1)

  All-repeat : (n : ℕ) (x : Bytes) → P x → All P (repeat n x)
  All-repeat zero x h = tt
  All-repeat (suc n) x h = (h, All-repeat n x h)

  All-places : (sizes : List ℤ) (owners : List Bytes) → All P owners → All P (places sizes owners)
  All-places [] owners h = tt
  All-places (size ∷ sizes) [] h = tt
  All-places (size ∷ sizes) (owner ∷ owners) h =
      All-append P (repeat (pos_part size) owner) (places sizes owners)
        (All-repeat (pos_part size) owner h.0) (All-places sizes owners h.1)

-- The god bot can invite, and its pools have their owners.
abbrev pub IsReady : Server → PoolsCtx → Type 0
IsReady s ctx =
    (s.god.god_mode ≡ true)
    × (s.god.has_god_user ≡ true)
    × (s.pools ≡ some ctx)
    × (length ctx.pool_sizes ≤ length ctx.pool_addresses)
    × All IsAddress ctx.pool_addresses

request_invites-ready :
    (g : God) (addresses : List Bytes)
    → g.god_mode ≡ true
    → g.has_god_user ≡ true
    → request_invites g addresses ≡ ok addresses
unfolding request_invites
request_invites-ready g addresses mode user = rw (mode, user) refl

handle_request-invites :
    (s : Server) (ctx : PoolsCtx) (address : Bytes) (addresses : List Bytes)
    → IsReady s ctx
    → ((text : Bytes) → Lacks b'%' text → s.printed text ≡ text)
    → All IsAddress (address ∷ addresses)
    → asked_for ctx (address ∷ addresses) ≤ length (address ∷ addresses)
    → (s' : Server) × (handle_request s (codes "/api/CreateInvites") (join (address ∷ addresses))
        ≡ (s', page (response_of (take (asked_for ctx (address ∷ addresses)) (queue ctx)))))
      × (s'.invited ≡ s.invited ++ (address ∷ addresses))
unfolding handle_request create_invites invites_answer pools_answer
handle_request-invites s ctx address addresses (mode, user, pools, full, owners) plain h few =
    let k = asked_for ctx (address ∷ addresses) in
    let asked = record s { invited = s.invited ++ (address ∷ addresses) } in
    let (ctx', run, _, _) = update_pools-queue ctx address addresses full few in
    let answer : create_invites s (join (address ∷ addresses))
        ≡ (record asked { pools = some ctx' }, ok (response_of (take k (queue ctx)))) =
      ap (λ parts. invites_answer s (request_invites s.god parts)) (split-join address addresses h)
      ∙ ap (invites_answer s) (request_invites-ready s.god (address ∷ addresses) mode user)
      ∙ ap (λ ps. pools_answer asked ps (address ∷ addresses)) pools
      ∙ ap (λ r. (record asked { pools = some r.0 }, r.1)) run in
    let written = page-response_of s.printed (take k (queue ctx)) plain (
      All-take IsAddress k (queue ctx)
        (All-places IsAddress ctx.pool_sizes ctx.pool_addresses owners)) in
    (
      record asked { pools = some ctx' },
      ap (λ r. (r.0, respond s.printed r.1)) answer
          ∙ ap (λ r. (record asked { pools = some ctx' }, r)) written,
      refl,
    )

-- What the client sees of a response.
abbrev pub seen : Response → Attempt
seen (page body) = responded 200 (some body)
seen status_500 = responded 500 (some [])
seen aborted = undone

-- A bot whose request reaches the god bot at one of its ten attempts, after attempts that have failed, gets
-- the owners of the first free places of the pools, as many as the rate asks for or as are left, or
-- nothing where none is left; and the god bot has asked its node for an invite to each address of the
-- request. This holds in god mode, once every pool has its owner, for addresses that begin with "0" and
-- have no comma and no percent sign, where the rate does not ask for more places than there are addresses.
pub create_invites-delivered :
    (network : Network) (s : Server) (ctx : PoolsCtx) (address : Bytes) (addresses : List Bytes)
    (n : ℕ)
    → IsReady s ctx
    → ((text : Bytes) → Lacks b'%' text → s.printed text ≡ text)
    → All IsAddress (address ∷ addresses)
    → asked_for ctx (address ∷ addresses) ≤ length (address ∷ addresses)
    → AllFail (network (invites_request (address ∷ addresses))) n 0
    → network (invites_request (address ∷ addresses)) n
      ≡ seen (handle_request s (codes "/api/CreateInvites") (join (address ∷ addresses))).1
    → n < 10
    → (client_create_invites network (address ∷ addresses)
        ≡ some (take (asked_for ctx (address ∷ addresses)) (queue ctx)))
      × ((handle_request s (codes "/api/CreateInvites") (join (address ∷ addresses))).0.invited
          ≡ s.invited ++ (address ∷ addresses))
unfolding idena_test_go.ApiClient.create_invites
create_invites-delivered network s ctx address addresses n ready plain h few failed reached more =
    let (s', handled, sent) = handle_request-invites s ctx address addresses ready plain h few in
    let chosen = take (asked_for ctx (address ∷ addresses)) (queue ctx) in
    let request = invites_request (address ∷ addresses) in
    let got : network request n ≡ responded 200 (some (response_of chosen)) =
      reached ∙ ap (λ r. seen r.1) handled in
    let body = send_request-first network request n failed (ap is_ok got) more ∙ ap body_of got in
    let (_, _, _, _, owners) = ready in
    let parsed = delegatees_of-response_of chosen (
      All-take IsAddress (asked_for ctx (address ∷ addresses)) (queue ctx)
        (All-places IsAddress ctx.pool_sizes ctx.pool_addresses owners)) in
    (rw (client_create_invites, body) (ap some parsed), ap (λ r. r.0.invited) handled ∙ sent)
