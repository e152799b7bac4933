-- ===== src/Prelude/Result.antt =====
-- How a Go call ends: it returns, it returns an error, it panics, or it does not return.
use Prim.Native.String.{String}
use mathlib.Core.Path.{◌≡◌, refl}
use mathlib.Core.Bool.{Bool, true, false}
use mathlib.Core.List.{List, [], ◌∷◌}
use mathlib.Core.Option.{Option, none, some}
use idena_test_go.Prelude.Int.{ℤ, pos, negsuc}
use idena_test_go.Prelude.Lists.{get_elem?, All}

-- The messages of `errors.New`, one constructor for each format, with the values it prints.
pub data Error : Type 0 where
  not_positive not_negative : (name : String) (value : ℤ) → Error
  bad_float : (name : String) → Error
  bad_number bad_epochs bad_nodes bad_users : Error
  repeated_epoch_node : (epoch : ℤ) → Error
  repeated_epoch repeated_user : ℤ → Error
  unknown_user : (user users_count : ℤ) → Error
  rates_and_answers : (session : String) → Error
  rates_total : Error
  bad_answer : Error
  no_random_bytes : Error
  not_reversed equal_words wrong_words no_flip_hashes no_flip assertion_failed : Error
  no_god_node no_god_user no_god_address no_boot_node no_ceremony_time sessions_timeout : Error
  unreadable no_switch tx_refused tx_not_mined : Error
  -- `errors.Wrap(err, text)` and the error of a call that is passed on
  unable : (text : String) → Error
  client_error : Error

pub data Fault : Type 0 where
  -- the runtime's: an index outside a slice, a division by zero, a nil pointer that is followed
  index_out_of_range division_by_zero nil_pointer : Fault
  -- an explicit `panic(err)`
  raised : Error → Fault
  -- `process.handleError(err)`, which ends with `os.Exit(1)`
  exited : Error → Fault
  -- the loop never ends
  endless_loop : Fault

pub data Result {ℓ} (A : Type ℓ) : Type ℓ where
  ok : A → Result A
  err : Error → Result A
  panic : Fault → Result A

infixl 5 ◌>>=◌ ◌>>◌
abbrev pub ◌>>=◌ {ℓ κ} : {A : Type ℓ} {B : Type κ} → Result A → (A → Result B) → Result B
panic fault >>= next = panic fault
err e >>= next = err e
ok value >>= next = next value

abbrev pub ◌>>◌ {ℓ} : {B : Type ℓ} → Result (Unit {0}) → Result B → Result B
check >> rest = check >>= λ done. rest

-- `if cond { return errors.New(...) }`
abbrev pub reject_if : Bool → Error → Result (Unit {0})
reject_if true e = err e
reject_if false e = ok tt

-- `if err != nil { return errors.New(...) }`: another message for the error of a call.
abbrev pub with_message {ℓ} : {A : Type ℓ} → Error → Result A → Result A
with_message e (ok a) = ok a
with_message e (err _) = err e
with_message e (panic x) = panic x

-- `if err != nil { panic(err) }`
abbrev pub or_panic {ℓ} : {A : Type ℓ} → Result A → Result A
or_panic (ok a) = ok a
or_panic (err e) = panic (raised e)
or_panic (panic x) = panic x

-- The value of a call, where none is its error: `if err != nil { return ..., e }`.
abbrev pub or_error {ℓ} : {A : Type ℓ} → Error → Option A → Result A
or_error e none = err e
or_error e (some a) = ok a

-- `err == nil`
abbrev pub succeeds {ℓ} : {A : Type ℓ} → Result A → Bool
succeeds (ok a) = true
succeeds (err e) = false
succeeds (panic x) = false

-- `for _, x := range xs { if err := f(x); err != nil { return err } }`
module _ {ℓ} {A : Type ℓ} (f : A → Result (Unit {0})) where
  abbrev pub each : List A → Result (Unit {0})
  each [] = ok tt
  each (x ∷ xs) = f x >> each xs

-- The same loop over a variable that the body changes.
module _ {ℓ κ} {A : Type ℓ} {S : Type κ} (f : A → S → Result S) where
  abbrev pub each_with : List A → S → Result S
  each_with [] s = ok s
  each_with (x ∷ xs) s = f x s >>= each_with xs

-- `xs[i]`
abbrev pub index {ℓ} : {A : Type ℓ} → List A → ℤ → Result A
index xs (pos i) = elim (get_elem? xs i) [ none ↦ panic index_out_of_range | some x ↦ ok x ]
index xs (negsuc i) = panic index_out_of_range

-- What a chain of calls has returned is what its calls have returned.
pub >>=-eq-ok {ℓ κ} :
    {A : Type ℓ} {B : Type κ} (call : Result A) (next : A → Result B) {end : B}
    → (call >>= next) ≡ ok end
    → (value : A) × (call ≡ ok value) × (next value ≡ ok end)
>>=-eq-ok (panic fault) next h = cc
>>=-eq-ok (err e) next h = cc
>>=-eq-ok (ok value) next h = (value, refl, h)

pub >>-eq-ok {ℓ} :
    {B : Type ℓ} (check : Result (Unit {0})) (rest : Result B) {end : B}
    → (check >> rest) ≡ ok end
    → (check ≡ ok tt) × (rest ≡ ok end)
>>-eq-ok (panic fault) rest h = cc
>>-eq-ok (err e) rest h = cc
>>-eq-ok (ok value) rest h = (refl, h)

pub each-eq-ok {ℓ} :
    {A : Type ℓ} (f : A → Result (Unit {0})) (xs : List A)
    → each f xs ≡ ok tt
    → All (λ x. f x ≡ ok tt) xs
each-eq-ok f [] h = tt
each-eq-ok f (x ∷ xs) h =
    let (hx, rest) = >>-eq-ok (f x) (each f xs) h in (hx, each-eq-ok f xs rest)
