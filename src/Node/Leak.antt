-- ===== src/Node/Leak.antt =====
-- node/node.go: a node that is started while its process is alive.
use idena_test_go.Prelude.{
  ℕ, ◌<◌, ◌≡◌, ap, ◌∙◌, inl, inr, Bool, true, false, ◌||◌, List, [], ◌∷◌, Option, none, some, ◌==◌,
  arith,
}
use idena_test_go.Prelude.Result.{ok}
use idena_test_go.Node.{StartMode}
use idena_test_go.Node.Setup.{Defaults}
use idena_test_go.Node.Runs.{Os, Site, without, start, kill_if, kill_process, destroy, without_log}
use idena_test_go.Node.Spawns.{Spawned, start-Started}

abbrev pub is_alive : ℕ → List ℕ → Bool
is_alive pid [] = false
is_alive pid (p ∷ live) = p == pid || is_alive pid live

is_alive-without :
    (pid other : ℕ) (live : List ℕ)
    → pid < other
    → is_alive pid live ≡ true
    → is_alive pid (without other live) ≡ true
is_alive-without pid other [] h alive = alive
is_alive-without pid other (p ∷ live) h alive = ground (arith, is_alive-without pid other live h)

second_alive : (pid other : ℕ) (live : List ℕ) → is_alive pid (other ∷ pid ∷ live) ≡ true
second_alive pid other live = ground arith

module _ {Files : Type 0} (os : Os Files) (defaults : Defaults) where
  start-Spawned :
      (mode : StartMode) (site : Site Files)
      → (start os defaults mode site).1 ≡ ok tt
      → Spawned site (start os defaults mode site).0
  start-Spawned mode site started = elim (start-Started os defaults mode site) [
    | inl (e, failed, same) ↦ cc
    | inr (done, new) ↦ new
  ]

  kill_if-alive :
      (site : Site Files) (pid other : ℕ) (process : Option ℕ)
      → process ≡ some other
      → pid < other
      → is_alive pid site.world.live ≡ true
      → is_alive pid (kill_if os defaults site process).0.world.live ≡ true
  unfolding kill_if kill_process
  kill_if-alive site pid other none has h alive = alive
  kill_if-alive site pid other (some p) has h alive =
      elim (os.kills p)
        as (λ killed. is_alive pid (kill_process os defaults site p killed).0.world.live ≡ true) [
          | true ↦
              is_alive-without pid p site.world.live (let same : p ≡ other = cc in omega arith)
                alive
          | false ↦ alive
        ]

  -- Nothing in `Start` stops the process that the node has: when two starts in a row return without an error,
  -- the process of the first one is still alive behind the next stop, and the node no longer has it.
  pub start-start_lem :
      (first second : StartMode) (site : Site Files)
      → (start os defaults first site).1 ≡ ok tt
      → (start os defaults second (start os defaults first site).0).1 ≡ ok tt
      → let once = (start os defaults first site).0 in
        let twice = (start os defaults second once).0 in
        (once.node.process ≡ some site.world.next)
        × (twice.node.process ≡ some once.world.next)
        × (is_alive site.world.next (destroy os defaults twice).0.world.live ≡ true)
  unfolding destroy
  start-start_lem first second site done again =
      let once = (start os defaults first site).0 in
      let twice = (start os defaults second once).0 in
      let new = start-Spawned first site done in
      let newer = start-Spawned second once again in
      (
        new.0,
        newer.0,
        kill_if-alive (without_log os defaults twice) site.world.next once.world.next
            twice.node.process newer.0 (omega (arith, new.2))
            (ap (is_alive site.world.next) (newer.1 ∙ ap (λ l. once.world.next ∷ l) new.1)
              ∙ second_alive site.world.next once.world.next site.world.live),
      )
