-- ===== src/Process/Epoch/Steps.antt =====
-- process/verification.go: which users take part in an epoch, in which order, and when their nodes are switched.
use idena_test_go.Prelude.{
  ◌≡◌, refl, sym, ap, ◌∙◌, Bool, true, false, ◌&&◌, ◌||◌, not, List, [], ◌∷◌, ◌++◌, map, Option,
  none, some, Bytes, Bool-cases, inl, inr, if◌then◌else◌,
}
use idena_test_go.Prelude.Int.{ℤ}
use idena_test_go.Process.Epoch.{active_after}
use idena_test_go.Process.Epoch.Calls.{
  Call, creates_new_users, switches_node, gets_epoch, switches_online_state, submits_flips,
  waits_for_flip_lottery, passes_verification, collects_state, waits_for_session_finish, Turn,
  session_calls, delegate_calls, switch_call, is_active_first, is_active_then, calls_if, test_user,
}

-- The calls by which a user takes part in a session, and the switches of its node.
abbrev pub is_main : Call → Bool
is_main switches_node = true
is_main submits_flips = true
is_main waits_for_flip_lottery = true
is_main passes_verification = true
is_main collects_state = true
is_main waits_for_session_finish = true
is_main _ = false

abbrev pub main_calls : List Call → List Call
main_calls [] = []
main_calls (c ∷ calls) = if is_main c then c ∷ main_calls calls else main_calls calls

-- What a user that takes part does, from its flips on.
abbrev pub played : List Call
played =
    submits_flips ∷ waits_for_flip_lottery ∷ passes_verification ∷ collects_state
    ∷ waits_for_session_finish ∷ []

main_calls-append :
    (calls more : List Call) → main_calls (calls ++ more) ≡ main_calls calls ++ main_calls more
main_calls-append [] more = refl
main_calls-append (c ∷ calls) more =
    let rest = main_calls-append calls more in
    elim (Bool-cases (is_main c)) [ inl b ↦ rw b (ap (λ l. c ∷ l) rest) | inr b ↦ rw b rest ]

main_calls-new_users :
    (counts : List ℤ) (more : List Call)
    → main_calls (map creates_new_users counts ++ more) ≡ main_calls more
main_calls-new_users [] more = refl
main_calls-new_users (n ∷ counts) more = main_calls-new_users counts more

main_calls-session : (t : Turn) → main_calls (session_calls t) ≡ played
main_calls-session t = ap (λ l. submits_flips ∷ l) (main_calls-new_users t.new_users _)

main_calls-online :
    (validation_only : Bool) (delegatee : Option Bytes) (more : List Call)
    → main_calls
        ((if validation_only then [] else switches_online_state ∷ delegate_calls delegatee) ++ more)
      ≡ main_calls more
main_calls-online true delegatee more = refl
main_calls-online false none more = refl
main_calls-online false (some delegatee) more = refl

main_calls-if :
    (b : Bool) (calls : List Call) → main_calls (calls_if b calls) ≡ calls_if b (main_calls calls)
main_calls-if true calls = refl
main_calls-if false calls = refl

main_calls-switch :
    (b : Bool) (more : List Call)
    → main_calls (switch_call b ++ more) ≡ switch_call b ++ main_calls more
main_calls-switch true more = refl
main_calls-switch false more = refl

-- The tests of `testUser` put together, where a user that was active is active in the first test.
main_of :
    (was_active skips later now : Bool) (session : List Call)
    → (was_active ≡ false → later ≡ now)
    → switch_call (not was_active)
        ++ calls_if
            (not skips && (was_active || later))
            (switch_call was_active ++ calls_if now session)
      ≡ switch_call (not (was_active && skips)) ++ calls_if (not skips && now) session
main_of true true later now session same = refl
main_of true false later now session same = refl
main_of false true later now session same = refl
main_of false false later true session same = rw (same refl) refl
main_of false false later false session same = rw (same refl) refl

-- The calls of `testUser` by which a user takes part in a session, in their order, with the switches of its
-- node: the node is switched once and first, but not where it was active and the scenario skips
-- the epoch. If the scenario does not skip the epoch and the node is active behind the switches, the user then
-- submits its flips, waits for the lottery, passes the verification, is looked at, and waits for the end of
-- the session, each once; otherwise it does nothing of these.
pub test_user_lem :
    (t : Turn)
    → main_calls (test_user t)
      ≡ switch_call (not (t.was_active && t.skip_epoch))
        ++ calls_if (not t.skip_epoch && active_after t.shares t.was_active t.switches) played
unfolding test_user is_active_first is_active_then
test_user_lem t =
    let now = active_after t.shares t.was_active t.switches in
    let later = active_after t.shares false t.switches in
    let first = not t.skip_epoch && (t.was_active || later) in
    let rest = switch_call t.was_active ++ calls_if now (session_calls t) in
    let online =
      if t.validation_only
      then []
      else switches_online_state ∷ delegate_calls t.multi_bot_delegatee in
    main_calls-switch (not t.was_active) (calls_if first (gets_epoch ∷ (online ++ rest)))
    ∙ ap (λ l. switch_call (not t.was_active) ++ l)
        (main_calls-if first (gets_epoch ∷ (online ++ rest))
          ∙ ap (calls_if first) (
              main_calls-online t.validation_only t.multi_bot_delegatee rest
              ∙ main_calls-switch t.was_active (calls_if now (session_calls t))
              ∙ ap (λ l. switch_call t.was_active ++ l)
                  (main_calls-if now (session_calls t) ∙ ap (calls_if now) (main_calls-session t))))
    ∙ main_of t.was_active t.skip_epoch later now played
        (λ e. ap (λ b. active_after t.shares b t.switches) (sym e))
