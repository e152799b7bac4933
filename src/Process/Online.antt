-- ===== src/Process/Online.antt =====
-- process/verification.go: when a user asks its node to go online or offline.
mod Tests
pub mod Attempts
use idena_test_go.Prelude.{
  ℕ, zero, suc, ◌+◌, Bool, true, false, ◌&&◌, ◌||◌, not, List, [], ◌∷◌, ◌++◌, Option, none, some,
  Bytes, String, if◌then◌else◌,
}
use idena_test_go.Prelude.Int.{ℤ, pos, negsuc, ◌+ℤ◌, ◌==ℤ◌}
use idena_test_go.Prelude.Dict.{Dict, lookup}
use idena_test_go.Prelude.Result.{Result, ok, err, panic, exited, endless_loop, no_switch, ◌>>=◌}
use text.Mathlib.Text.{◌==◌ as ◌=s=◌}

-- The loop of `pos`, from the `i`-th element on.
pos_loop : ℤ → (i : ℕ) → List ℤ → ℤ
pos_loop target i [] = negsuc 0
pos_loop target i (v ∷ slice) =
    let rest = pos_loop target (suc i) slice in if v ==ℤ target then pos i else rest

-- `pos(slice, target)`, in the argument order of the source.
unfoldable pub pos_of : List ℤ → ℤ → ℤ
unfolding pos_loop
pos_of slice target = pos_loop target 0 slice

-- The end of `tryToSwitchOnlineState`: the attempts, and whether it returns without an error.
pub record Tried : Type 0 where
  pub attempts : ℕ
  pub succeeds : Bool

-- What a user meets, by the number of the attempt: whether the node accepts a request to go online (true)
-- or offline, and whether the deadline is over after it. The deadline is five minutes before the
-- validation.
pub record Switching : Type 0 where
  pub accepts : Bool → ℕ → Bool
  pub late : ℕ → Bool
  pub fuel : ℕ

-- The loop of `tryToSwitchOnlineState` after some attempts, on fuel.
unfoldable pub try_loop : Switching → Bool → (fuel attempts : ℕ) → Result Tried
try_loop s online zero attempts = panic endless_loop
try_loop s online (suc fuel) attempts =
    let rest = try_loop s online fuel (suc attempts) in
    if s.accepts online attempts
    then ok (record { attempts = suc attempts; succeeds = true })
    else if s.late attempts
    then ok (record { attempts = suc attempts; succeeds = false })
    else rest

unfoldable pub try_to_switch_online_state : Switching → Bool → Result Tried
unfolding try_loop
try_to_switch_online_state s online = try_loop s online s.fuel 0

-- What `switchOnlineState` has done: the requests (true to go online), and `autoOnlineSent`.
pub record Switched : Type 0 where
  pub requests : List Bool
  pub auto_online_sent : Bool

-- A switch that the scenario asks for: the process exits if it fails.
abbrev pub must_switch : Result Tried → Result (Unit {0})
must_switch (ok tried) = if tried.succeeds then ok tt else panic (exited no_switch)
must_switch (err e) = err e
must_switch (panic x) = panic x

abbrev pub asked_to : Switching → Bool → (asked : Bool) → Result (List Bool)
asked_to s online true =
    must_switch (try_to_switch_online_state s online) >>= (λ done. ok (online ∷ []))
asked_to s online false = ok []

-- `identity.State == verified || identity.State == human || identity.State == newbie`
abbrev pub is_validated : String → Bool
is_validated state = state =s= "Verified" || (state =s= "Human" || state =s= "Newbie")

-- `pos(users, u.GetIndex()) != -1`, where an epoch without users has none.
abbrev pub is_in : Option (List ℤ) → ℤ → Bool
is_in none user = false
is_in (some users) user = not (pos_of users user ==ℤ negsuc 0)

abbrev pub listed_in : Dict (List ℤ) → (test_index user : ℤ) → Bool
listed_in epochs test_index user = is_in (lookup test_index epochs) user

-- The switch that the scenario does not ask for: its error is only logged.
abbrev pub auto_switch : Switching → Result Switched
auto_switch s =
    try_to_switch_online_state s true
    >>= (λ tried. ok (record { requests = true ∷ []; auto_online_sent = tried.succeeds }))

-- `switchOnlineState`, where `state` is that of the identity.
unfoldable pub switch_online_state :
    Switching
    → (onlines offlines : Dict (List ℤ))
    → (test_index user : ℤ) (state : String) (auto_online_sent : Bool) → Result Switched
unfolding try_to_switch_online_state pos_of lookup
switch_online_state s onlines offlines test_index user state auto_online_sent =
    let become_online = listed_in onlines test_index user in
    let become_offline = listed_in offlines test_index user in
    let asks_nothing = not become_online && not become_offline in
    let is_auto = asks_nothing && (not auto_online_sent && is_validated state) in
    asked_to s true become_online >>= (λ on. asked_to s false become_offline >>= (λ off.
      if is_auto
      then auto_switch s
      else ok (record { requests = on ++ off; auto_online_sent = auto_online_sent })))
