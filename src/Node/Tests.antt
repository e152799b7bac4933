-- ===== src/Node/Tests.antt =====
-- Runs of nodes.
use idena_test_go.Prelude.{◌≡◌, ◌≤◌, refl, ◌⊎◌, true, [], ◌∷◌, none, some, codes, length}
use idena_test_go.Prelude.Result.{Error, ok, err}
use idena_test_go.Node.{delete_nothing, delete_data_dir}
use idena_test_go.Node.Setup.{get_args}
use idena_test_go.Node.Runs.{Site, start, destroy}
use idena_test_go.Node.Leftover.{leftover}
use idena_test_go.Node.Alive.{Reach, starts, here, next, Reach-Owned_lem}
use idena_test_go.Node.Leak.{is_alive, start-start_lem}
use idena_test_go.Node.Memory.{Memory, memory_os, defaults, test_node, test_site}

test_args :
    get_args test_node
    ≡ codes "--config"
      ∷ codes "datadir/config-3-9003.json"
      ∷ codes "--verbosity"
      ∷ codes "3"
      ∷ codes "--apikey"
      ∷ codes "key"
      ∷ []
unfolding get_args
test_args = refl

abbrev started_site : Site Memory
unfolding start
started_site = (start memory_os defaults delete_data_dir test_site).0

-- A start, and a second one while the first process is alive.
abbrev started_twice : Site Memory
unfolding start started_site
started_twice = (start memory_os defaults delete_nothing started_site).0

started_steps : Reach memory_os defaults test_site 1 started_twice
unfolding start started_site started_twice
started_steps = next (next here (starts delete_data_dir)) (starts delete_nothing)

test_live : started_site.world.live ≡ 5 ∷ []
unfolding start started_site
test_live = refl

Reach-Owned_lem_example :
    (length (leftover started_twice.node.process started_twice.world.live) ≤ 1)
    × (length started_twice.world.live ≤ 2)
    × (((e : Error) × ((destroy memory_os defaults started_twice).1 ≡ err e))
        ⊎ (((destroy memory_os defaults started_twice).1 ≡ ok tt)
            × ((destroy memory_os defaults started_twice).0.node.process ≡ none)
            × (length (destroy memory_os defaults started_twice).0.world.live ≤ 1)))
Reach-Owned_lem_example =
    Reach-Owned_lem memory_os defaults 1 test_site started_twice refl refl started_steps

start-start_lem_example :
    let once = (start memory_os defaults delete_data_dir test_site).0 in
    let twice = (start memory_os defaults delete_nothing once).0 in
    (once.node.process ≡ some 5)
    × (twice.node.process ≡ some once.world.next)
    × (is_alive 5 (destroy memory_os defaults twice).0.world.live ≡ true)
unfolding start
start-start_lem_example =
    start-start_lem memory_os defaults delete_data_dir delete_nothing test_site refl refl
