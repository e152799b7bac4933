-- ===== src/ApiClient/Tests.antt =====
-- Runs of the client against the server.
use idena_test_go.Prelude.{
  ℕ, zero, suc, ◌≡◌, ◌≢◌, refl, true, false, [], ◌∷◌, Option, none, some, Bytes, codes, arith,
}
use idena_test_go.Prelude.Int.{pos}
use idena_test_go.Api.{PoolsCtx, Server, join, handle_request}
use idena_test_go.ApiClient.{undone, Network, create_invites, get_boot_node}
use idena_test_go.ApiClient.Delivery.{IsAddress, IsReady, seen, create_invites-delivered}

abbrev ctx : PoolsCtx
ctx = record {
  pool_sizes = pos 1 ∷ pos 2 ∷ [];
  pool_addresses = codes "0xa" ∷ codes "0xb" ∷ [];
  count = λ n. pos n;
}

abbrev server : Server
server = record {
  god = record {
    god_address = codes "0x1";
    ipfs_boot_node = [];
    god_host = codes "host";
    god_mode = true;
    has_god_user = true;
    ceremony_time = pos 0;
    test_index = 0;
    fails_are_warnings = false;
    keys = [];
  };
  pools = some ctx;
  invited = [];
  notices = [];
  printed = λ text. text;
}

abbrev field_of : Option (Bytes × Bytes) → Bytes
field_of none = []
field_of (some (name, value)) = value

-- The first attempt fails, and later ones reach the server.
abbrev network : Network
network request zero = undone
network request (suc n) = seen (handle_request server request.path (field_of request.field)).1

test_get_boot_node : get_boot_node network ≡ none
unfolding get_boot_node handle_request
test_get_boot_node = refl

short_text-IsAddress : (c : ℕ) → c ≢ b',' → c ≢ b'%' → IsAddress (b'0' ∷ b'x' ∷ c ∷ [])
short_text-IsAddress c comma percent = (
  (b'x' ∷ c ∷ [], refl),
  ((λ bad. omega arith), ((λ bad. omega arith), (comma, tt))),
  ((λ bad. omega arith), ((λ bad. omega arith), (percent, tt))),
)

ready : IsReady server ctx
ready = (
  refl,
  refl,
  refl,
  omega arith,
  (
    short_text-IsAddress b'a' (λ bad. omega arith) (λ bad. omega arith),
    (short_text-IsAddress b'b' (λ bad. omega arith) (λ bad. omega arith), tt),
  ),
)

create_invites-delivered_example :
    (create_invites network (codes "0xc" ∷ codes "0xd" ∷ [])
      ≡ some (codes "0xa" ∷ codes "0xb" ∷ []))
    × ((handle_request server
          (codes "/api/CreateInvites")
          (join (codes "0xc" ∷ codes "0xd" ∷ []))).0.invited
        ≡ codes "0xc" ∷ codes "0xd" ∷ [])
create_invites-delivered_example =
    create_invites-delivered network server ctx (codes "0xc") (codes "0xd" ∷ []) 1 ready
      (λ text lacks. refl)
      (
        short_text-IsAddress b'c' (λ bad. omega arith) (λ bad. omega arith),
        (short_text-IsAddress b'd' (λ bad. omega arith) (λ bad. omega arith), tt),
      )
      (omega arith) (refl, tt) refl (omega arith)
