-- ===== src/Process/Start.antt =====
-- process/init.go: the start of the god node, and the restart of a node that has crashed.
pub mod Restarted
mod Tests
use idena_test_go.Prelude.{
  ℕ, zero, suc, ◌+◌, ◌*◌, Bool, true, false, Option, none, some, Bytes, codes, if◌then◌else◌,
}
use idena_test_go.Prelude.Int.{ℤ, pos, ◌+ℤ◌, ◌*ℤ◌}
use idena_test_go.Prelude.Result.{
  Result, ok, err, panic, exited, client_error, no_god_address, no_ceremony_time, no_boot_node,
  ◌>>=◌,
}
use idena_test_go.Node.{StartMode, delete_nothing, delete_data_dir, delete_db}
use idena_test_go.Node.Setup.{Defaults}
use idena_test_go.Node.Runs.{Os}
use idena_test_go.User.Started.{
  OwnUser, start_user, stop_user, destroy_node, update_parameters, init_address,
}

-- The loop of `getGodAddress` of a bot that is not the god bot, with `cnt` requests left of which the next
-- is the `at`-th.
unfoldable pub get_god_address : (answer_at : ℕ → Option Bytes) → (cnt at : ℕ) → Result Bytes
get_god_address answer_at zero at = panic (exited no_god_address)
get_god_address answer_at (suc cnt) at =
    let rest = get_god_address answer_at cnt (suc at) in
    elim (answer_at at) [ none ↦ rest | some address ↦ ok address ]

-- `getCeremonyTime`: in seconds, and by the answer of the god bot to another one.
unfoldable pub get_ceremony_time : (god_mode : Bool) → (now min_offset : ℤ) → Option ℤ → Result ℤ
get_ceremony_time true now min_offset answer = ok (now +ℤ min_offset *ℤ pos 60)
get_ceremony_time false now min_offset none = panic (exited no_ceremony_time)
get_ceremony_time false now min_offset (some time) = ok time

-- `getIpfsBootNode`, where `replaced` puts 127.0.0.1 for the first 0.0.0.0 of a text.
unfoldable pub get_ipfs_boot_node :
    (replaced : Bytes → Bytes) → (god_mode : Bool) → Option Bytes → Result Bytes
get_ipfs_boot_node replaced god_mode none = panic (exited no_boot_node)
get_ipfs_boot_node replaced true (some boot_node) = ok (replaced boot_node)
get_ipfs_boot_node replaced false (some boot_node) = ok boot_node

-- `process.handleError` on what a call of a user returns: the user behind it, or the end of the process.
unfoldable pub must : {A : Type 0} → A × Result (Unit {0}) → Result A
must (a, ok done) = ok a
must (a, err e) = panic (exited e)
must (a, panic x) = panic x

-- What the god user gets from its node when it starts: whether it is syncing at each start, its address and
-- that of its IPFS node.
pub record GodNode : Type 0 where
  pub first_syncing : Option Bool
  pub second_syncing : Option Bool
  pub address : Option Bytes
  pub ipfs_address : Option Bytes
  pub replaced : Bytes → Bytes
  pub now : ℤ
  pub min_offset : ℤ

module _ {Files : Type 0} (os : Os Files) (defaults : Defaults) where
  -- `startNode`
  unfoldable pub start_node :
      StartMode → (syncing : Option Bool) → OwnUser Files → Result (OwnUser Files)
  unfolding must start_user
  start_node mode syncing u = must (start_user os defaults mode syncing u)

  -- `stopNode`
  unfoldable pub stop_node : OwnUser Files → Result (OwnUser Files)
  unfolding must stop_user
  stop_node u = must (stop_user os defaults u)

  -- `restartGodNode`
  unfoldable pub restart_god_node :
      (god_address ipfs_boot_node : Bytes)
      → ℤ
      → (syncing : Option Bool) → OwnUser Files
      → Result (OwnUser Files)
  unfolding stop_node start_node update_parameters
  restart_god_node god_address ipfs_boot_node time syncing u = stop_node u >>= (λ stopped.
      start_node delete_db syncing
        (update_parameters os defaults god_address ipfs_boot_node time stopped))

  -- `init` of the god bot behind the creation of its user.
  unfoldable pub init_god : GodNode → OwnUser Files → Result (OwnUser Files)
  unfolding start_node init_address get_ipfs_boot_node get_ceremony_time restart_god_node must
  init_god g u = do
    started ← start_node delete_data_dir g.first_syncing u
    named ← must (init_address g.address started)
    boot_node ← get_ipfs_boot_node g.replaced true g.ipfs_address
    time ← get_ceremony_time true g.now g.min_offset none
    restart_god_node named.address boot_node time g.second_syncing named

  -- The handler of `NodeCrashedEvent` of a user: the error of `DestroyNode` is dropped.
  unfoldable pub node_crashed : (syncing : Option Bool) → OwnUser Files → Result (OwnUser Files)
  unfolding start_node destroy_node
  node_crashed syncing u =
      if u.active then start_node delete_nothing syncing (destroy_node os defaults u).0 else ok u
