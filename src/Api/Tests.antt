-- ===== src/Api/Tests.antt =====
-- Runs of the server.
use idena_test_go.Prelude.{
  ℕ, ◌/◌, ◌≤◌, ◌≡◌, refl, true, false, List, [], ◌∷◌, some, Bytes, codes, length, take, drop, arith,
}
use idena_test_go.Prelude.Int.{pos, negsuc}
use idena_test_go.Prelude.Result.{ok, panic, index_out_of_range}
use idena_test_go.Api.{
  God, PoolsCtx, Server, page, status_500, aborted, response_of, update_pools, handle_request,
  replace_first, format_int,
}
use idena_test_go.Api.Pools.{queue, update_pools-queue}

abbrev owners : List Bytes
owners = codes "0xa" ∷ codes "0xb" ∷ []

-- Two pools, of one place and of two; half of the addresses are given delegatees.
abbrev ctx : PoolsCtx
ctx = record { pool_sizes = pos 1 ∷ pos 2 ∷ []; pool_addresses = owners; count = λ n. pos (n / 2) }

abbrev god : God
god = record {
  god_address = codes "0x1";
  ipfs_boot_node = codes "/ip4/127.0.0.1/tcp";
  god_host = codes "host";
  god_mode = true;
  has_god_user = true;
  ceremony_time = pos 0;
  test_index = 70000;
  fails_are_warnings = false;
  keys = [];
}

abbrev server : Server
server = record { god = god; pools = some ctx; invited = []; notices = []; printed = λ text. text }

test_format_int : format_int (negsuc 119) ≡ codes "-120"
unfolding format_int
test_format_int = refl

test_boot_node :
    (handle_request server (codes "/api/GetIpfsBootNode") []).1 ≡ page (codes "/ip4/host/tcp")
unfolding handle_request
test_boot_node = refl

test_epoch : (handle_request server (codes "/api/GetEpoch") []).1 ≡ page (codes "4464")
unfolding handle_request
test_epoch = refl

test_ceremony_time : (handle_request server (codes "/api/GetCeremonyTime") []).1 ≡ status_500
unfolding handle_request
test_ceremony_time = refl

-- `GetBootNode` of the client has no handler.
test_boot_node_route : (handle_request server (codes "/api/GetBootNode") []).1 ≡ status_500
unfolding handle_request
test_boot_node_route = refl

test_invites :
    (handle_request server (codes "/api/CreateInvites") (codes "0xc,0xd,0xe,0xf")).1
    ≡ page (codes "0xa,0xb")
unfolding handle_request idena_test_go.Scenario.Nums.split idena_test_go.Prelude.Int.◌+ℤ◌
    idena_test_go.Api.join
test_invites = refl

-- A rate above 1 runs past the addresses: the handler panics, and the pools keep the loss of a place.
test_lost_place :
    update_pools (record ctx { count = λ n. pos 2 }) (codes "0xc" ∷ [])
    ≡ (record ctx { pool_sizes = pos 0 ∷ pos 1 ∷ []; count = λ n. pos 2 }, panic index_out_of_range)
unfolding update_pools idena_test_go.Prelude.Int.◌+ℤ◌
test_lost_place = refl

update_pools-queue_example :
    (ctx' : PoolsCtx) × (update_pools ctx
        (codes "0xc" ∷ codes "0xd" ∷ codes "0xe" ∷ codes "0xf" ∷ [])
      ≡ (ctx', ok (response_of (take 2 (queue ctx)))))
    × (queue ctx' ≡ drop 2 (queue ctx))
    × (length ctx'.pool_sizes ≤ length ctx'.pool_addresses)
update_pools-queue_example =
    update_pools-queue ctx (codes "0xc") (codes "0xd" ∷ codes "0xe" ∷ codes "0xf" ∷ [])
      (omega arith) (omega arith)
