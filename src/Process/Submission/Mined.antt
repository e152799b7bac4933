-- ===== src/Process/Submission/Mined.antt =====
-- process/verification.go: which flip a user finds that it has submitted.
use idena_test_go.Prelude.{
  ℕ, zero, suc, ◌+◌, ◌<◌, ◌≡◌, refl, sym, ap, ◌∙◌, Bool, true, false, ◌||◌, List, [], ◌∷◌, ◌++◌,
  none, some, Bytes, length, length-append, All, ◌==◌, arith,
}
use idena_test_go.Prelude.Result.{ok}
use idena_test_go.Process.Flips.{Flip, same_text}
use idena_test_go.Process.Flips.Sizes.{same_text_refl}
use idena_test_go.Process.Submission.{
  contains_cid, new_cid, found_cid, or_rest, wait_for_flip, Submitter, response_or_empty,
  submit_flip,
}

abbrev Contained : List Bytes → List Bytes → Type 0
Contained cids = All (λ c. contains_cid cids c ≡ true)

or_true : (b : Bool) → (b || true) ≡ true
or_true true = refl
or_true false = refl

Contained-cons :
    (cid : Bytes) (cids some_cids : List Bytes)
    → Contained cids some_cids
    → Contained (cid ∷ cids) some_cids
Contained-cons cid cids [] h = tt
Contained-cons cid cids (c ∷ some_cids) h =
    (rw h.0 (or_true (same_text cid c)), Contained-cons cid cids some_cids h.1)

Contained-front : (front back : List Bytes) → Contained (front ++ back) front
Contained-front [] back = tt
Contained-front (c ∷ front) back = (
  rw (same_text_refl c) refl,
  Contained-cons c (front ++ back) front (Contained-front front back),
)

new_cid-inserted :
    (before front back : List Bytes) (cid : Bytes)
    → Contained before front
    → contains_cid before cid ≡ false
    → new_cid before (front ++ cid ∷ back) ≡ some cid
unfolding new_cid
new_cid-inserted before [] back cid h absent = rw absent refl
new_cid-inserted before (c ∷ front) back cid h absent =
    rw h.0 (new_cid-inserted before front back cid h.1 absent)

found_cid-same : (before : List Bytes) → found_cid before before ≡ none
unfolding found_cid
found_cid-same before =
    let other : (length before == length before + 1) ≡ false = ground arith in rw other refl

found_cid-inserted :
    (front back : List Bytes) (cid : Bytes)
    → contains_cid (front ++ back) cid ≡ false
    → found_cid (front ++ back) (front ++ cid ∷ back) ≡ some cid
unfolding found_cid
found_cid-inserted front back cid absent =
    let one_more : (length (front ++ cid ∷ back) == length (front ++ back) + 1) ≡ true =
      ground (arith, length-append front (cid ∷ back), length-append front back) in
    rw one_more
      (new_cid-inserted (front ++ back) front back cid (Contained-front front back) absent)

-- At the `n` attempts from the `at`-th on the flips are those from before.
abbrev pub AllSame : List Bytes → (ℕ → List Bytes) → (n at : ℕ) → Type 0
AllSame before flips_at zero at = Unit
AllSame before flips_at (suc n) at = (flips_at at ≡ before) × AllSame before flips_at n (suc at)

wait_for_flip-first :
    (before : List Bytes) (flips_at : ℕ → List Bytes) (n fuel at : ℕ) (cid : Bytes)
    → AllSame before flips_at n at
    → found_cid before (flips_at (at + n)) ≡ some cid
    → n < fuel
    → wait_for_flip before flips_at fuel at ≡ ok cid
unfolding wait_for_flip
wait_for_flip-first before flips_at n zero at cid same found more = absurd (omega arith)
wait_for_flip-first before flips_at zero (suc fuel) at cid same found more =
    let here : at + 0 ≡ at = omega arith in
    let found' : found_cid before (flips_at at) ≡ some cid =
      ap (λ i. found_cid before (flips_at i)) (sym here) ∙ found in
    ap (or_rest (wait_for_flip before flips_at fuel (suc at))) found'
wait_for_flip-first before flips_at (suc n) (suc fuel) at cid (e, same) found more =
    let later : suc at + n ≡ at + suc n = omega arith in
    let nothing : found_cid before (flips_at at) ≡ none =
      ap (found_cid before) e ∙ found_cid-same before in
    ap (or_rest (wait_for_flip before flips_at fuel (suc at))) nothing
    ∙ wait_for_flip-first before flips_at n fuel (suc at) cid same
        (ap (λ i. found_cid before (flips_at i)) later ∙ found) (omega arith)

-- A user that submits a flip, other than in a test of the validation alone, waits while its identity has the
-- flips that it had before; it returns when these have one new flip among them, at any place, and what
-- it returns is that flip, with the transaction of the response. A fuel above the number of attempts
-- before is enough.
pub submit_flip-mined :
    (s : Submitter) (i : ℕ) (flip : Flip) (pair n : ℕ) (front back : List Bytes) (cid : Bytes)
    → s.validation_only ≡ false
    → s.flips_before i ≡ front ++ back
    → AllSame (front ++ back) (s.flips_at i) n 0
    → s.flips_at i n ≡ front ++ cid ∷ back
    → contains_cid (front ++ back) cid ≡ false
    → n < s.fuel
    → submit_flip s i flip pair ≡ ok (cid, (response_or_empty (s.answer i flip pair)).1)
unfolding submit_flip
submit_flip-mined s i flip pair n front back cid waits before same now absent more =
    let here : n ≡ 0 + n = omega arith in
    let found : found_cid (front ++ back) (s.flips_at i (0 + n)) ≡ some cid =
      ap (λ j. found_cid (front ++ back) (s.flips_at i j)) (sym here)
      ∙ ap (found_cid (front ++ back)) now
      ∙ found_cid-inserted front back cid absent in
    let got = wait_for_flip-first (front ++ back) (s.flips_at i) n s.fuel 0 cid same found more in
    rw (waits, before, got) refl
