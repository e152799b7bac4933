-- ===== src/User/Cache/Flips.antt =====
-- user/user_shared.go with process/verification.go: a user of a shared node gets the flips that it says it has.
use idena_test_go.Prelude.{
  ◌≡◌, refl, sym, ap, ◌∙◌, ◌≢◌, ◌⊎◌, inl, inr, Bool-cases, Bool, true, false, not, List, [], ◌∷◌,
  Option, none, some, Bytes, All, if◌then◌else◌,
}
use idena_test_go.Prelude.Result.{
  Result, Fault, not_reversed, ok, err, panic, exited, no_flip, client_error, ◌>>=◌, ◌>>◌,
}
use idena_test_go.Process.Flips.{Flip, assert_flip}
use idena_test_go.Process.Answers.{FlipHash}
use idena_test_go.Process.Hashes.{get_flips, exit_if}
use idena_test_go.User.{TestContext, cached}
use idena_test_go.User.Cache.{Source, get_flip, mark_ready, marked_hashes, get_short_flip_hashes}
use idena_test_go.User.Cache.Kept.{Kept, flip_of, get_flip-kept, mark_ready-Kept, mark_ready-cached}

abbrev to_option : Result Flip → Option Flip
to_option (ok flip) = some flip
to_option _ = none

-- What `GetFlip` gives to the loop of `getFlips`.
abbrev pub later_flip : Source → (address key : Bytes) → TestContext → Bytes → Option Flip
later_flip later address key context hash = to_option (get_flip later address key hash context).1

append_flip :
    (rest : Result (List Flip)) (flip : Flip) (x : Fault)
    → rest ≢ panic x
    → (rest >>= (λ got. ok (flip ∷ got))) ≢ panic x
append_flip (ok flips) flip x h e = cc
append_flip (err e') flip x h e = cc
append_flip (panic x') flip x h e = h e

checked_flip :
    (b : Bool) (rest : Result (List Flip)) (flip : Flip)
    → rest ≢ panic (exited no_flip)
    → (exit_if b not_reversed >> (rest >>= (λ got. ok (flip ∷ got)))) ≢ panic (exited no_flip)
checked_flip true rest flip h e = cc
checked_flip false rest flip h e = append_flip rest flip (exited no_flip) h e

-- The step of the loop of `getFlips`, by the flip that it gets.
abbrev step_flip :
    (from_hex : Bytes → Bytes)
    → (ready : Bool) → (rest : Result (List Flip)) → Option Flip
    → Result (List Flip)
step_flip from_hex ready rest got =
    if not ready
    then rest >>= (λ flips. ok (record { private_hex = []; public_hex = [] } ∷ flips))
    else elim got [
      | none ↦ panic (exited no_flip)
      | some found ↦
          exit_if (not (assert_flip from_hex found)) not_reversed
          >> (rest >>= (λ flips. ok (found ∷ flips)))
    ]

step_flip-found :
    (from_hex : Bytes → Bytes) (ready : Bool) (rest : Result (List Flip)) (got : Option Flip)
    → (ready ≡ true → (flip : Flip) × (got ≡ some flip))
    → rest ≢ panic (exited no_flip)
    → step_flip from_hex ready rest got ≢ panic (exited no_flip)
step_flip-found from_hex false rest got found h e = append_flip rest _ (exited no_flip) h e
step_flip-found from_hex true rest none found h e = let (flip, wrong) = found refl in cc
step_flip-found from_hex true rest (some flip) found h e =
    checked_flip (not (assert_flip from_hex flip)) rest flip h e

get_flips-found :
    (from_hex : Bytes → Bytes) (get : Bytes → Option Flip) (items : List FlipHash)
    → All (λ item. item.ready ≡ true → (flip : Flip) × (get item.hash ≡ some flip)) items
    → get_flips from_hex get items ≢ panic (exited no_flip)
unfolding get_flips
get_flips-found from_hex get [] found e = cc
get_flips-found from_hex get (item ∷ items) (first, found) e =
    step_flip-found from_hex item.ready (get_flips from_hex get items) (get item.hash) first
      (get_flips-found from_hex get items found) e

-- A flip is not ready, or a later call gives the flip that it was, and nothing changes.
abbrev pub StillGot :
    (source later : Source) (address key : Bytes) (context after : TestContext) → FlipHash → Type 0
StillGot source later address key context after item =
    (item.ready ≡ false)
    ⊎ ((flip : Flip) × (flip_of source address key context item.hash ≡ ok flip)
        × (get_flip later address key item.hash after ≡ (after, ok flip)))

served :
    (source later : Source) (address key : Bytes) (context after : TestContext)
    (items : List FlipHash)
    → ((hash : Bytes) (flip : Flip)
        → cached after hash ≡ some flip
        → flip_of source address key context hash ≡ ok flip)
    → All (Kept after) items
    → All (StillGot source later address key context after) items
served source later address key context after [] same kept = tt
served source later address key context after (item ∷ items) same (first, kept) = (
  elim (Bool-cases item.ready) [
    | inl ready ↦
        let (flip, e) = first ready in
        inr (flip, same item.hash flip e, get_flip-kept later address key item.hash after flip e)
    | inr unready ↦ inl unready
  ],
  served source later address key context after items same kept,
)

found_later :
    (later : Source) (address key : Bytes) (after : TestContext) (items : List FlipHash)
    → All (Kept after) items
    → All
        (λ item.
          item.ready ≡ true
          → (flip : Flip) × (later_flip later address key after item.hash ≡ some flip))
        items
found_later later address key after [] kept = tt
found_later later address key after (item ∷ items) (first, kept) = (
  λ ready.
      let (flip, e) = first ready in
      (flip, ap (λ got. to_option got.1) (get_flip-kept later address key item.hash after flip e)),
  found_later later address key after items kept,
)

same_Kept :
    (now after : TestContext) (marked items : List FlipHash)
    → All (Kept now) marked
    → Path (TestContext × Result (List FlipHash)) (now, ok marked) (after, ok items)
    → All (Kept after) items
same_Kept now after marked items kept e =
    let same : now ≡ after = ap (λ p. p.0) e in
    let results : Path (Result (List FlipHash)) (ok marked) (ok items) = ap (λ p. p.1) e in
    let all : marked ≡ items = cc in rw (sym same, sym all) kept

marked_hashes-Kept :
    (source : Source) (address key : Bytes) (context after : TestContext)
    (given : Option (List FlipHash)) (items : List FlipHash)
    → marked_hashes source address key context given ≡ (after, ok items)
    → All (Kept after) items
unfolding marked_hashes
marked_hashes-Kept source address key context after none items e =
    let results : Path (Result (List FlipHash)) (err client_error) (ok items) = ap (λ p. p.1) e in
    cc
marked_hashes-Kept source address key context after (some given) items e =
    same_Kept (mark_ready source address key given context).0 after
      (mark_ready source address key given context).1 items
      (mark_ready-Kept source address key given context) e

marked_hashes-flip_of :
    (source : Source) (address key : Bytes) (context after : TestContext)
    (given : Option (List FlipHash)) (items : List FlipHash)
    → marked_hashes source address key context given ≡ (after, ok items)
    → (hash : Bytes) (flip : Flip) → cached after hash ≡ some flip
    → flip_of source address key context hash ≡ ok flip
unfolding marked_hashes
marked_hashes-flip_of source address key context after none items e hash flip found =
    let results : Path (Result (List FlipHash)) (err client_error) (ok items) = ap (λ p. p.1) e in
    cc
marked_hashes-flip_of source address key context after (some given) items e hash flip found =
    let same : (mark_ready source address key given context).0 ≡ after = ap (λ p. p.0) e in
    mark_ready-cached source address key hash given context flip
      (ap (λ c. cached c hash) same ∙ found)

-- When a user of a shared node has got the flips of the short session, it still gets each one that is ready,
-- whatever its node answers by then, and it is the flip that it was before: the one that the user had kept,
-- or else the one that the node gave and its keys decrypted. So the process does not exit because of a
-- flip that it cannot get.
pub get_short_flip_hashes-kept :
    (source later : Source) (from_hex : Bytes → Bytes) (address key : Bytes)
    (context after : TestContext) (items : List FlipHash)
    → get_short_flip_hashes source address key context ≡ (after, ok items)
    → All (StillGot source later address key context after) items
      × (get_flips from_hex (later_flip later address key after) items ≢ panic (exited no_flip))
unfolding get_short_flip_hashes
get_short_flip_hashes-kept source later from_hex address key context after items e =
    let given = source.get_short_flip_hashes address in
    let kept = marked_hashes-Kept source address key context after given items e in
    (
      served source later address key context after items
          (marked_hashes-flip_of source address key context after given items e) kept,
      get_flips-found from_hex (later_flip later address key after) items
          (found_later later address key after items kept),
    )
