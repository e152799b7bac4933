-- ===== src/Process/Online/Tests.antt =====
-- Runs of the switches of online states.
use idena_test_go.Prelude.{◌≡◌, refl, true, false, [], ◌∷◌, ltb, ◌==◌}
use idena_test_go.Prelude.Int.{pos}
use idena_test_go.Prelude.Result.{ok, panic, exited, no_switch}
use idena_test_go.Process.Online.{Switching, switch_online_state}

-- The node accepts the third request, and the deadline is over after the sixth.
abbrev switching : Switching
switching = record { accepts = λ online n. n == 2; late = λ n. ltb 4 n; fuel = 10 }

test_scenario :
    switch_online_state switching
      ((pos 0, pos 7 ∷ []) ∷ [])
      ((pos 0, pos 7 ∷ []) ∷ [])
      (pos 0)
      (pos 7)
      "Human"
      false
    ≡ ok (record { requests = true ∷ false ∷ []; auto_online_sent = false })
unfolding switch_online_state
test_scenario = refl

test_auto :
    switch_online_state switching [] [] (pos 0) (pos 7) "Newbie" false
    ≡ ok (record { requests = true ∷ []; auto_online_sent = true })
unfolding switch_online_state
test_auto = refl

test_exit :
    switch_online_state
      (record switching { accepts = λ online n. false })
      ((pos 0, pos 7 ∷ []) ∷ [])
      []
      (pos 0)
      (pos 7)
      "Human"
      false
    ≡ panic (exited no_switch)
unfolding switch_online_state
test_exit = refl
