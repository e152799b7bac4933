-- ===== src/Scenario/Validation/Keys.antt =====
-- What the loops of scenario/validation.go over epochs and users accept.
use idena_test_go.Prelude.{◌≡◌, ◌≢◌, false, List, [], ◌∷◌, ◌++◌, arith, All}
use idena_test_go.Prelude.Int.{ℤ, pos, ◌≤ℤ◌, ◌<ℤ◌, ==ℤ_iff}
use idena_test_go.Prelude.Result.{ok, >>=-eq-ok, each_with}
use idena_test_go.Scenario.Validation.{has, validate_epoch, validate_ceremony_user}

abbrev pub NotIn : ℤ → List ℤ → Type 0
NotIn x = All (λ y. y ≢ x)

-- No element of the second list stands in the first, or earlier in the second.
abbrev pub Fresh : List ℤ → List ℤ → Type 0
Fresh used [] = Unit
Fresh used (x ∷ xs) = NotIn x used × Fresh (x ∷ used) xs

-- The keys after a loop: the newest first.
abbrev pub filled : List ℤ → List ℤ → List ℤ
filled used [] = used
filled used (x ∷ xs) = filled (x ∷ used) xs

has-false-NotIn : (x : ℤ) (used : List ℤ) → has x used ≡ false → NotIn x used
unfolding has
has-false-NotIn x [] h = tt
has-false-NotIn x (y ∷ used) h = ground (arith, ==ℤ_iff y x, has-false-NotIn x used)

pub Fresh-append :
    (used xs ys : List ℤ) → Fresh used xs → Fresh (filled used xs) ys → Fresh used (xs ++ ys)
Fresh-append used [] ys h k = k
Fresh-append used (x ∷ xs) ys h k = (h.0, Fresh-append (x ∷ used) xs ys h.1 k)

validate_epoch-eq-ok :
    (e : ℤ) (used used' : List ℤ)
    → validate_epoch e used ≡ ok used'
    → (used' ≡ e ∷ used) × NotIn e used
unfolding validate_epoch
validate_epoch-eq-ok e used used' h = ground (arith, has-false-NotIn e used)

-- The loop over the epochs of one ceremony.
pub each_epoch-eq-ok :
    (es used used' : List ℤ)
    → each_with validate_epoch es used ≡ ok used'
    → (used' ≡ filled used es) × Fresh used es
each_epoch-eq-ok [] used used' h = (cc, tt)
each_epoch-eq-ok (e ∷ es) used used' h =
    let (used1, h1, h2) = >>=-eq-ok (validate_epoch e used) (each_with validate_epoch es) h in
    let (same, new) = validate_epoch-eq-ok e used used1 h1 in
    let (last, rest) = each_epoch-eq-ok es (e ∷ used) used' (rw same at h2) in (last, (new, rest))

validate_ceremony_user-eq-ok :
    (n u : ℤ) (used used' : List ℤ)
    → validate_ceremony_user n u used ≡ ok used'
    → (used' ≡ u ∷ used) × NotIn u used × (pos 0 ≤ℤ u) × (u <ℤ n)
unfolding validate_ceremony_user
validate_ceremony_user-eq-ok n u used used' h = ground (arith, has-false-NotIn u used)

-- The loop over the users of one user ceremony.
pub each_user-eq-ok :
    (n : ℤ) (us used used' : List ℤ)
    → each_with (validate_ceremony_user n) us used ≡ ok used'
    → (used' ≡ filled used us) × Fresh used us × All (λ u. (pos 0 ≤ℤ u) × (u <ℤ n)) us
each_user-eq-ok n [] used used' h = (cc, tt, tt)
each_user-eq-ok n (u ∷ us) used used' h =
    let (used1, h1, h2) =
      >>=-eq-ok (validate_ceremony_user n u used) (each_with (validate_ceremony_user n) us) h in
    let (same, new, low, high) = validate_ceremony_user-eq-ok n u used used1 h1 in
    let (last, rest, range) = each_user-eq-ok n us (u ∷ used) used' (rw same at h2) in
    (last, (new, rest), ((low, high), range))
