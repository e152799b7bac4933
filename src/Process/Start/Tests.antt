-- ===== src/Process/Start/Tests.antt =====
-- Runs of the start of the god node.
use idena_test_go.Prelude.{
  ◌≡◌, refl, true, false, none, some, codes, if◌then◌else◌, ◌==◌, ℕ, Bytes, Option,
}
use idena_test_go.Prelude.Int.{pos}
use idena_test_go.Prelude.Result.{Result, ok, err, panic}
use idena_test_go.Node.Setup.{get_config_file_full_name, build_node_config_file_data}
use idena_test_go.Node.Runs.{update_node_parameters}
use idena_test_go.Node.Memory.{Memory, read_memory, memory_os, memory-FileLaws, defaults, test_site}
use idena_test_go.User.Started.{OwnUser, new_user}
use idena_test_go.Process.Start.{get_god_address, restart_god_node}
use idena_test_go.Process.Start.Restarted.{restart_god_node-written}

abbrev god_user : OwnUser Memory
unfolding new_user
god_user = new_user test_site 0

-- The god bot answers the third request.
abbrev late_answer : ℕ → Option Bytes
late_answer n = if n == 2 then some (codes "0x01") else none

test_god_address : get_god_address late_answer 10 0 ≡ ok (codes "0x01")
unfolding get_god_address
test_god_address = refl

abbrev restarted_or : OwnUser Memory → Result (OwnUser Memory) → OwnUser Memory
restarted_or u (ok after) = after
restarted_or u (err e) = u
restarted_or u (panic x) = u

abbrev restarted_user : OwnUser Memory
unfolding restart_god_node god_user new_user
restarted_user = restarted_or god_user (
    restart_god_node memory_os defaults (codes "0x01") (codes "/ip4") (pos 99) (some false)
      god_user)

restart_god_node-written_example :
    (restarted_user.active ≡ true)
    × (read_memory (get_config_file_full_name god_user.site.node) restarted_user.site.world.files
        ≡ some (
            build_node_config_file_data defaults
              (update_node_parameters (codes "0x01") (codes "/ip4") (pos 99) god_user.site.node)))
unfolding restart_god_node restarted_user god_user new_user
restart_god_node-written_example =
    restart_god_node-written memory_os defaults read_memory (codes "0x01") (codes "/ip4") (pos 99)
      (some false) god_user restarted_user memory-FileLaws (λ path text files. refl) refl
