-- ===== src/Node/Alive.antt =====
-- node/node.go: which processes of a node are alive, in any sequence of starts, stops and ends of processes.
use idena_test_go.Prelude.{
  ℕ, suc, ◌+◌, ◌≤◌, ◌≡◌, refl, sym, ap, ◌⊎◌, inl, inr, Bool, true, false, [], Option, none, some,
  Bytes, length, arith, ◌==◌,
}
use mathlib.Core.Path.{subst}
use idena_test_go.Prelude.Int.{ℤ}
use idena_test_go.Prelude.Result.{Error, ok, err}
use idena_test_go.Node.{StartMode}
use idena_test_go.Node.Setup.{Defaults}
use idena_test_go.Node.Runs.{
  Os, Site, without, start, kill_process, kill_if, destroy, without_log, update_node_parameters,
  set_exec_command_name,
}
use idena_test_go.Node.Spawns.{start-Started}
use idena_test_go.Node.Leftover.{
  starts_over, leftover, Falls, Falls-without, without-absent, leftover_at_most, all_at_most,
  leftover-without,
}

module _ {Files : Type 0} (os : Os Files) (defaults : Defaults) where
  -- What happens to a node: the process starts it, stops it, changes it, or a process that it has started
  -- ends by itself. The number is 1 for a start of a node that has a process.
  pub data Step (before : Site Files) : ℕ → Site Files → Type 0 where
    starts :
        (mode : StartMode)
        → Step before (starts_over before.node.process) (start os defaults mode before).0
    stops : Step before 0 (destroy os defaults before).0
    updates :
        (god_address ipfs_boot_node : Bytes) (time : ℤ)
        → Step before 0 (record before {
          node = update_node_parameters god_address ipfs_boot_node time before.node;
        })
    renames :
        (name : Bytes)
        → Step before 0 (record before { node = set_exec_command_name name before.node })
    ends :
        (pid : ℕ)
        → Step before 0
            (record before { world = record before.world { live = without pid before.world.live } })

  -- Steps, with the number of the starts of a node that had a process.
  pub data Reach (from : Site Files) : ℕ → Site Files → Type 0 where
    here : Reach from 0 from
    next :
        {n k : ℕ} {before after : Site Files}
        → Reach from n before
        → Step before k after
        → Reach from (n + k) after

-- At most `n` processes are alive but that of the node.
abbrev pub Owned : {Files : Type 0} → ℕ → Site Files → Type 0
Owned n site =
    Falls site.world.next site.world.live
    × (length (leftover site.node.process site.world.live) ≤ n)

module _ {Files : Type 0} (os : Os Files) (defaults : Defaults) where
  start-Owned :
      (mode : StartMode) (n : ℕ) (site : Site Files)
      → Owned n site
      → Owned (n + starts_over site.node.process) (start os defaults mode site).0
  start-Owned mode n site (falls, h) = elim (start-Started os defaults mode site) [
    | inl (e, failed, same) ↦ (rw (same.2, same.1) falls, rw (same.0, same.1) (omega arith))
    | inr (done, new) ↦
        let few = leftover_at_most site.node.process site.world.next n site.world.live falls h in
        let gone =
          without-absent site.world.next site.world.next site.world.live (omega arith) falls in
        let own : (site.world.next == site.world.next) ≡ true = ground arith in
        (
          rw (new.2, new.1) (omega arith, falls),
          rw (new.0, new.1, own) (omega (arith, ap length gone)),
        )
  ]

  kill_process-Owned :
      (n pid : ℕ) (site : Site Files) (killed : Bool)
      → site.node.process ≡ some pid
      → Owned n site
      → Owned n (kill_process os defaults site pid killed).0
  unfolding kill_process
  kill_process-Owned n pid site false has h = h
  kill_process-Owned n pid site true has (falls, h) = (
    Falls-without site.world.next pid site.world.live falls,
    subst (λ o. length (leftover o site.world.live) ≤ n) has h,
  )

  kill_if-Owned :
      (n : ℕ) (site : Site Files) (process : Option ℕ)
      → site.node.process ≡ process
      → Owned n site
      → Owned n (kill_if os defaults site process).0
  unfolding kill_if
  kill_if-Owned n site none has h = h
  kill_if-Owned n site (some pid) has h = kill_process-Owned n pid site (os.kills pid) has h

  destroy-Owned : (n : ℕ) (site : Site Files) → Owned n site → Owned n (destroy os defaults site).0
  unfolding destroy
  destroy-Owned n site h = kill_if-Owned n (without_log os defaults site) site.node.process refl h

  Step-Owned :
      (n k : ℕ) (before after : Site Files)
      → Step os defaults before k after
      → Owned n before
      → Owned (n + k) after
  unfolding update_node_parameters set_exec_command_name
  Step-Owned n k before after (starts mode) h = start-Owned mode n before h
  Step-Owned n k before after stops h =
      let owned = destroy-Owned n before h in (owned.0, omega (arith, owned.1))
  Step-Owned n k before after (updates god_address ipfs_boot_node time) h =
      (h.0, omega (arith, h.1))
  Step-Owned n k before after (renames name) h = (h.0, omega (arith, h.1))
  Step-Owned n k before after (ends pid) (falls, h) = (
    Falls-without before.world.next pid before.world.live falls,
    omega (arith, leftover-without before.node.process pid n before.world.live h),
  )

  Reach-Owned :
      (from : Site Files) (n : ℕ) (site : Site Files)
      → Reach os defaults from n site
      → Owned 0 from
      → Owned n site
  Reach-Owned from n site here h = h
  Reach-Owned from n site (next {n = m} {k = k} {before = before} steps step) h =
      Step-Owned m k before site step (Reach-Owned from m before steps h)

  -- What `Stop` leaves of the processes, or its error.
  kill_if-ends :
      (n : ℕ) (site : Site Files) (process : Option ℕ)
      → site.node.process ≡ process
      → length (leftover site.node.process site.world.live) ≤ n
      → ((e : Error) × ((kill_if os defaults site process).1 ≡ err e))
        ⊎ (((kill_if os defaults site process).1 ≡ ok tt)
            × ((kill_if os defaults site process).0.node.process ≡ none)
            × (length (kill_if os defaults site process).0.world.live ≤ n))
  unfolding kill_if kill_process
  kill_if-ends n site none has h =
      inr (refl, has, subst (λ o. length (leftover o site.world.live) ≤ n) has h)
  kill_if-ends n site (some pid) has h =
      elim (os.kills pid)
        as (λ killed.
          ((e : Error) × ((kill_process os defaults site pid killed).1 ≡ err e))
          ⊎ (((kill_process os defaults site pid killed).1 ≡ ok tt)
              × ((kill_process os defaults site pid killed).0.node.process ≡ none)
              × (length (kill_process os defaults site pid killed).0.world.live ≤ n))) [
                | true ↦
                    inr (refl, refl, subst (λ o. length (leftover o site.world.live) ≤ n) has h)
                | false ↦ inl (_, refl)
              ]

  -- From a node without a process on, after any sequence of starts, stops, changes and ends of processes, at
  -- most as many processes are alive beside that of the node as it was started while it had one. So a stop
  -- without an error leaves the node without a process, and at most that many alive. Where every start met
  -- a node without a process, at most the node's own process is alive, and none is behind such a stop.
  pub Reach-Owned_lem :
      (n : ℕ) (from site : Site Files)
      → from.node.process ≡ none
      → from.world.live ≡ []
      → Reach os defaults from n site
      → (length (leftover site.node.process site.world.live) ≤ n)
        × (length site.world.live ≤ suc n)
        × (((e : Error) × ((destroy os defaults site).1 ≡ err e))
            ⊎ (((destroy os defaults site).1 ≡ ok tt)
                × ((destroy os defaults site).0.node.process ≡ none)
                × (length (destroy os defaults site).0.world.live ≤ n)))
  unfolding destroy
  Reach-Owned_lem n from site idle empty steps =
      let first : Owned 0 from =
        (subst (λ l. Falls from.world.next l) (sym empty) tt, rw (idle, empty) (omega arith)) in
      let owned = Reach-Owned from n site steps first in
      (
        owned.1,
        all_at_most site.node.process site.world.next n site.world.live owned.0 owned.1,
        kill_if-ends n (without_log os defaults site) site.node.process refl owned.1,
      )
