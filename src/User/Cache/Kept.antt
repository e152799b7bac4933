-- ===== src/User/Cache/Kept.antt =====
-- user/user_shared.go: what a user of a shared node has got it keeps.
use idena_test_go.Prelude.{
  ◌≡◌, refl, sym, ap, ◌∙◌, Bool, true, false, List, [], ◌∷◌, Option, none, some, Bytes, All,
  if◌then◌else◌,
}
use idena_test_go.Prelude.Result.{Result, succeeds, ok, err, panic}
use idena_test_go.Process.Flips.{Flip, same_text}
use idena_test_go.Process.Flips.Sizes.{same_text_refl, same_text-eq}
use idena_test_go.Process.Answers.{FlipHash}
use idena_test_go.User.{TestContext, cached, flip_in}
use idena_test_go.User.Cache.{
  Source, get_flip, serve_flip, keep_flip, load_flip, mark_ready, flips_or_none,
}

-- The map has a flip for the hash.
abbrev pub Cached : TestContext → Bytes → Type 0
Cached context hash = (flip : Flip) × (cached context hash ≡ some flip)

-- The second context has every flip of the first one.
abbrev pub Extends : TestContext → TestContext → Type 0
Extends before after = (hash : Bytes) → Cached before hash → Cached after hash

-- A test only adds to what is found, where it does not find something itself.
found_in_rest :
    (b : Bool) (flip : Flip) (rest : Option Flip)
    → (found : Flip) × (rest ≡ some found)
    → (found : Flip) × ((if b then some flip else rest) ≡ some found)
found_in_rest true flip rest found = (flip, refl)
found_in_rest false flip rest found = found

kept_flips :
    (b : Bool) (flip : Flip) (flips : Option (List (Bytes × Flip))) (hash : Bytes)
    → (found : Flip) × (elim flips [ none ↦ none | some flips' ↦ flip_in flips' hash ] ≡ some found)
    → (found : Flip) × ((if b then some flip else flip_in (flips_or_none flips) hash) ≡ some found)
unfolding flip_in
kept_flips b flip none hash (found, e) = found_in_rest b flip none (found, e)
kept_flips b flip (some flips) hash found = found_in_rest b flip (flip_in flips hash) found

keep_flip-Extends :
    (hash : Bytes) (context : TestContext) (loaded : Result Flip)
    → Extends context (keep_flip hash context loaded).0
unfolding keep_flip flip_in
keep_flip-Extends hash context (err e) h found = found
keep_flip-Extends hash context (panic x) h found = found
keep_flip-Extends hash context (ok flip) h found =
    kept_flips (same_text hash h) flip context.flips_by_hash h found

serve_flip-Extends :
    (hash : Bytes) (context : TestContext) (loaded : Result Flip) (kept : Option Flip)
    → Extends context (serve_flip hash context loaded kept).0
unfolding serve_flip
serve_flip-Extends hash context loaded (some flip) h found = found
serve_flip-Extends hash context loaded none h found = keep_flip-Extends hash context loaded h found

keep_flip-Cached :
    (hash : Bytes) (context : TestContext) (loaded : Result Flip)
    → succeeds (keep_flip hash context loaded).1 ≡ true
    → Cached (keep_flip hash context loaded).0 hash
unfolding keep_flip flip_in
keep_flip-Cached hash context (err e) h = cc
keep_flip-Cached hash context (panic x) h = cc
keep_flip-Cached hash context (ok flip) h = (flip, rw (same_text_refl hash) refl)

serve_flip-Cached :
    (hash : Bytes) (context : TestContext) (loaded : Result Flip) (kept : Option Flip)
    → cached context hash ≡ kept
    → succeeds (serve_flip hash context loaded kept).1 ≡ true
    → Cached (serve_flip hash context loaded kept).0 hash
unfolding serve_flip
serve_flip-Cached hash context loaded (some flip) e h = (flip, e)
serve_flip-Cached hash context loaded none e h = keep_flip-Cached hash context loaded h

get_flip-Extends :
    (source : Source) (address key hash : Bytes) (context : TestContext)
    → Extends context (get_flip source address key hash context).0
unfolding get_flip
get_flip-Extends source address key hash context =
    serve_flip-Extends hash context (load_flip source address key hash) (cached context hash)

get_flip-Cached :
    (source : Source) (address key hash : Bytes) (context : TestContext)
    → succeeds (get_flip source address key hash context).1 ≡ true
    → Cached (get_flip source address key hash context).0 hash
unfolding get_flip
get_flip-Cached source address key hash context =
    serve_flip-Cached hash context (load_flip source address key hash) (cached context hash) refl

-- What is kept is given back, whatever the node says, and nothing changes.
pub get_flip-kept :
    (source : Source) (address key hash : Bytes) (context : TestContext) (flip : Flip)
    → cached context hash ≡ some flip
    → get_flip source address key hash context ≡ (context, ok flip)
unfolding get_flip serve_flip
get_flip-kept source address key hash context flip e =
    ap (serve_flip hash context (load_flip source address key hash)) e

mark_ready-Extends :
    (source : Source) (address key : Bytes) (items : List FlipHash) (context : TestContext)
    → Extends context (mark_ready source address key items context).0
unfolding mark_ready
mark_ready-Extends source address key [] context h found = found
mark_ready-Extends source address key (item ∷ items) context h found =
    mark_ready-Extends source address key items (get_flip source address key item.hash context).0 h
      (get_flip-Extends source address key item.hash context h found)

-- What a flip is: the one that the map has, and otherwise the one that the node gives and the keys decrypt.
abbrev flip_or : Result Flip → Option Flip → Result Flip
flip_or loaded none = loaded
flip_or loaded (some flip) = ok flip

abbrev pub flip_of : Source → (address key : Bytes) → TestContext → Bytes → Result Flip
flip_of source address key context hash =
    flip_or (load_flip source address key hash) (cached context hash)

flip_of-cached :
    (source : Source) (address key hash : Bytes) (context : TestContext) (flip : Flip)
    → cached context hash ≡ some flip
    → flip_of source address key context hash ≡ ok flip
flip_of-cached source address key hash context flip e =
    ap (flip_or (load_flip source address key hash)) e

-- A flip that is put in front, for a hash that the map does not have.
abbrev flip_among : Option (List (Bytes × Flip)) → Bytes → Option Flip
unfolding flip_in
flip_among none hash = none
flip_among (some flips) hash = flip_in flips hash

put_flip :
    (b : Bool) (flip : Flip) (loaded : Result Flip) (flips : Option (List (Bytes × Flip)))
    (hash : Bytes)
    → (b ≡ true → (flip_among flips hash ≡ none) × (loaded ≡ ok flip))
    → flip_or loaded (if b then some flip else flip_in (flips_or_none flips) hash)
      ≡ flip_or loaded (flip_among flips hash)
unfolding flip_in
put_flip true flip loaded flips hash h =
    let (absent, same) = h refl in sym same ∙ sym (ap (flip_or loaded) absent)
put_flip false flip loaded none hash h = refl
put_flip false flip loaded (some flips) hash h = refl

among :
    (flips : Option (List (Bytes × Flip))) (hash : Bytes)
    → flip_among flips hash ≡ elim flips [ none ↦ none | some flips' ↦ flip_in flips' hash ]
unfolding flip_in
among none hash = refl
among (some flips) hash = refl

keep_flip-flip_of :
    (source : Source) (address key hash other : Bytes) (context : TestContext)
    (loaded : Result Flip)
    → cached context hash ≡ none
    → load_flip source address key hash ≡ loaded
    → flip_of source address key (keep_flip hash context loaded).0 other
      ≡ flip_of source address key context other
unfolding keep_flip flip_in
keep_flip-flip_of source address key hash other context (err e) absent same = refl
keep_flip-flip_of source address key hash other context (panic x) absent same = refl
keep_flip-flip_of source address key hash other context (ok flip) absent same =
    put_flip (same_text hash other) flip (load_flip source address key other) context.flips_by_hash
      other
      (λ b.
        let here : hash ≡ other = same_text-eq hash other b in
        (
          among context.flips_by_hash other ∙ ap (cached context) (sym here) ∙ absent,
          ap (load_flip source address key) (sym here) ∙ same,
        ))
    ∙ ap (flip_or (load_flip source address key other)) (among context.flips_by_hash other)

serve_flip-flip_of :
    (source : Source) (address key hash other : Bytes) (context : TestContext) (kept : Option Flip)
    → cached context hash ≡ kept
    → flip_of source address key
        (serve_flip hash context (load_flip source address key hash) kept).0
        other
      ≡ flip_of source address key context other
unfolding serve_flip
serve_flip-flip_of source address key hash other context (some flip) e = refl
serve_flip-flip_of source address key hash other context none e =
    keep_flip-flip_of source address key hash other context (load_flip source address key hash) e
      refl

-- Getting flips does not change what any flip is.
mark_ready-flip_of :
    (source : Source) (address key other : Bytes) (items : List FlipHash) (context : TestContext)
    → flip_of source address key (mark_ready source address key items context).0 other
      ≡ flip_of source address key context other
unfolding mark_ready get_flip
mark_ready-flip_of source address key other [] context = refl
mark_ready-flip_of source address key other (item ∷ items) context =
    mark_ready-flip_of source address key other items
      (get_flip source address key item.hash context).0
    ∙ serve_flip-flip_of source address key item.hash other context (cached context item.hash) refl

pub mark_ready-cached :
    (source : Source) (address key hash : Bytes) (items : List FlipHash) (context : TestContext)
    (flip : Flip)
    → cached (mark_ready source address key items context).0 hash ≡ some flip
    → flip_of source address key context hash ≡ ok flip
mark_ready-cached source address key hash items context flip e =
    sym (mark_ready-flip_of source address key hash items context)
    ∙ flip_of-cached source address key hash (mark_ready source address key items context).0 flip e

abbrev pub Kept : TestContext → FlipHash → Type 0
Kept context item = item.ready ≡ true → Cached context item.hash

pub mark_ready-Kept :
    (source : Source) (address key : Bytes) (items : List FlipHash) (context : TestContext)
    → All
        (Kept (mark_ready source address key items context).0)
        (mark_ready source address key items context).1
unfolding mark_ready
mark_ready-Kept source address key [] context = tt
mark_ready-Kept source address key (item ∷ items) context = (
  λ ready.
      mark_ready-Extends source address key items (get_flip source address key item.hash context).0
        item.hash (get_flip-Cached source address key item.hash context ready),
  mark_ready-Kept source address key items (get_flip source address key item.hash context).0,
)
