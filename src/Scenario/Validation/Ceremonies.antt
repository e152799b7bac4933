-- ===== src/Scenario/Validation/Ceremonies.antt =====
-- `validateCeremonies` of scenario/validation.go: what it accepts, and where it panics.
use mathlib.Core.List.{flat_map}
use idena_test_go.Prelude.{
  length, ◌≡◌, List, [], ◌∷◌, ◌++◌, arith, All, All-append, Bytes, ◌<◌, ◌+◌, ◌-◌, ap, ◌∙◌,
}
use idena_test_go.Prelude.Int.{ℤ, pos, negsuc, ◌≤ℤ◌, ◌<ℤ◌, ◌+ℤ◌}
use idena_test_go.Prelude.Float.{Float}
use idena_test_go.Prelude.Result.{
  Error, Result, ok, err, panic, >>=-eq-ok, >>-eq-ok, each_with, with_message, index, bad_epochs,
  bad_users, index_out_of_range,
}
use idena_test_go.Scenario.Incoming.{UserCeremony, Ceremony}
use idena_test_go.Scenario.Nums.{parse_nums}
use idena_test_go.Scenario.Counts.{users_count, ignore_error}
use idena_test_go.Scenario.Nums.Range.{consecutive}
use idena_test_go.Scenario.Nums.RoundTrip.{
  IsDecimal, value, interval, rows_text, parse_nums-rows_text,
}
use idena_test_go.Scenario.Nums.Pieces.{numbers_of, listed}
use idena_test_go.Scenario.Validation.{
  validate_epoch, validate_epochs, validate_ceremony_user, validate_ceremony_users,
  validate_submit_flips, validate_session_answers, validate_user_ceremony, validate_user_ceremonies,
  validate_ceremony, validate_ceremonies, validate_assertion,
}
use idena_test_go.Scenario.Validation.Keys.{
  Fresh, filled, Fresh-append, each_epoch-eq-ok, each_user-eq-ok,
}

-- The numbers of a text that was read, under an error message of its own.
with_message-numbers_of :
    (e : Error) (s : Bytes) (xs : List ℤ)
    → with_message e (parse_nums s) ≡ ok xs
    → numbers_of s ≡ xs
with_message-numbers_of e s xs h = read (parse_nums s) h
  where
    read : (r : Result (List ℤ)) → with_message e r ≡ ok xs → listed r ≡ xs
    read (ok ys) h = cc
    read (err _) h = cc
    read (panic _) h = cc

validate_ceremony_users-eq-ok :
    (s : Bytes) (n : ℤ) (used used' : List ℤ)
    → validate_ceremony_users s n used ≡ ok used'
    → (used' ≡ filled used (numbers_of s))
      × Fresh used (numbers_of s)
      × All (λ u. (pos 0 ≤ℤ u) × (u <ℤ n)) (numbers_of s)
unfolding validate_ceremony_users
validate_ceremony_users-eq-ok s n used used' h =
    let (us, h1, h2) =
      >>=-eq-ok (with_message bad_users (parse_nums s))
        (λ us. each_with (validate_ceremony_user n) us used) h in
    rw (with_message-numbers_of bad_users s us h1) (each_user-eq-ok n us used used' h2)

validate_epochs-eq-ok :
    (s : Bytes) (used used' : List ℤ)
    → validate_epochs s used ≡ ok used'
    → (used' ≡ filled used (numbers_of s)) × Fresh used (numbers_of s)
unfolding validate_epochs
validate_epochs-eq-ok s used used' h =
    let (es, h1, h2) =
      >>=-eq-ok (with_message bad_epochs (parse_nums s)) (λ es. each_with validate_epoch es used)
        h in
    rw (with_message-numbers_of bad_epochs s es h1) (each_epoch-eq-ok es used used' h2)

ignore_error-numbers_of :
    (s : Bytes) (xs : List ℤ) → ignore_error (parse_nums s) ≡ ok xs → numbers_of s ≡ xs
unfolding ignore_error
ignore_error-numbers_of s xs h = read (parse_nums s) h
  where
    read : (r : Result (List ℤ)) → ignore_error r ≡ ok xs → listed r ≡ xs
    read (ok ys) h = cc
    read (err _) h = cc
    read (panic _) h = cc

module _ {F : Type 0} where
  -- The users of all sections, in their order.
  abbrev pub ceremony_users : List (UserCeremony F) → List ℤ
  ceremony_users [] = []
  ceremony_users (uc ∷ ucs) = numbers_of uc.users ++ ceremony_users ucs

  -- The epochs of all ceremonies, in their order.
  abbrev pub ceremony_epochs : List (Ceremony F) → List ℤ
  ceremony_epochs [] = []
  ceremony_epochs (c ∷ cs) = numbers_of c.epochs ++ ceremony_epochs cs

  -- What holds of one accepted ceremony: it has a last epoch, and its users are below the number of
  -- users that is looked up for that epoch.
  pub record IsCeremony (counts : List ℤ) (c : Ceremony F) : Type 0 where
    pub last_epoch : ℤ
    pub users_limit : ℤ
    pub last :
        index (numbers_of c.epochs) (pos (length (numbers_of c.epochs)) +ℤ negsuc 0) ≡ ok last_epoch
    pub limit : users_count counts last_epoch ≡ ok users_limit
    pub users_fresh : Fresh [] (ceremony_users c.user_ceremonies)
    pub users_known :
        All (λ u. (pos 0 ≤ℤ u) × (u <ℤ users_limit)) (ceremony_users c.user_ceremonies)

module _ {F : Type 0} ⦃float : Float F⦄ where
  validate_user_ceremony-eq-ok :
      (n : ℤ) (uc : UserCeremony F) (used used' : List ℤ)
      → validate_user_ceremony n uc used ≡ ok used'
      → validate_ceremony_users uc.users n used ≡ ok used'
  unfolding validate_user_ceremony
  validate_user_ceremony-eq-ok n uc used used' h =
      let (used1, h1, h2) = >>=-eq-ok (validate_ceremony_users uc.users n used) _ h in
      let (_, h3) = >>-eq-ok (validate_submit_flips uc.submit_flips) _ h2 in
      let (_, h4) =
        >>-eq-ok (validate_session_answers uc.short_answer_rates uc.short_answers "short") _ h3 in
      let (_, h5) =
        >>-eq-ok (validate_session_answers uc.long_answer_rates uc.long_answers "long") _ h4 in
      cc (h1, h5)

  each_user_ceremony-eq-ok :
      (n : ℤ) (ucs : List (UserCeremony F)) (used used' : List ℤ)
      → each_with (validate_user_ceremony n) ucs used ≡ ok used'
      → Fresh used (ceremony_users ucs) × All (λ u. (pos 0 ≤ℤ u) × (u <ℤ n)) (ceremony_users ucs)
  each_user_ceremony-eq-ok n [] used used' h = (tt, tt)
  each_user_ceremony-eq-ok n (uc ∷ ucs) used used' h =
      let (used1, h1, h2) =
        >>=-eq-ok (validate_user_ceremony n uc used) (each_with (validate_user_ceremony n) ucs) h in
      let (same, fresh, range) =
        validate_ceremony_users-eq-ok uc.users n used used1
          (validate_user_ceremony-eq-ok n uc used used1 h1) in
      let (fresh', range') =
        each_user_ceremony-eq-ok n ucs (filled used (numbers_of uc.users)) used' (rw same at h2) in
      (
        Fresh-append used (numbers_of uc.users) (ceremony_users ucs) fresh fresh',
        All-append _ (numbers_of uc.users) (ceremony_users ucs) range range',
      )

  -- Accepted user ceremonies name no user twice, neither in one section nor in two, and only users
  -- from 0 up to, and not including, the number of users.
  pub validate_user_ceremonies-Fresh :
      (ucs : List (UserCeremony F)) (n : ℤ)
      → validate_user_ceremonies ucs n ≡ ok tt
      → Fresh [] (ceremony_users ucs) × All (λ u. (pos 0 ≤ℤ u) × (u <ℤ n)) (ceremony_users ucs)
  unfolding validate_user_ceremonies
  validate_user_ceremonies-Fresh ucs n h =
      let (used, h1, _) = >>=-eq-ok (each_with (validate_user_ceremony n) ucs []) _ h in
      each_user_ceremony-eq-ok n ucs [] used h1

  validate_ceremony-eq-ok :
      (counts : List ℤ) (c : Ceremony F) (used used' : List ℤ)
      → validate_ceremony counts c used ≡ ok used'
      → (used' ≡ filled used (numbers_of c.epochs))
        × Fresh used (numbers_of c.epochs)
        × IsCeremony counts c
  unfolding validate_ceremony
  validate_ceremony-eq-ok counts c used used' h =
      let (used1, h1, k1) = >>=-eq-ok (validate_epochs c.epochs used) _ h in
      let (es, h2, k2) = >>=-eq-ok (ignore_error (parse_nums c.epochs)) _ k1 in
      let (m, h3, k3) = >>=-eq-ok (index es (pos (length es) +ℤ negsuc 0)) _ k2 in
      let (n, h4, k4) = >>=-eq-ok (users_count counts m) _ k3 in
      let (h5, k5) = >>-eq-ok (validate_user_ceremonies c.user_ceremonies n) _ k4 in
      let (_, k6) = >>-eq-ok (validate_assertion c.assertion) _ k5 in
      let (same, fresh) = validate_epochs-eq-ok c.epochs used used1 h1 in
      let (users, known) = validate_user_ceremonies-Fresh c.user_ceremonies n h5 in
      let es-eq : numbers_of c.epochs ≡ es = ignore_error-numbers_of c.epochs es h2 in
      let last : index (numbers_of c.epochs) (pos (length (numbers_of c.epochs)) +ℤ negsuc 0)
          ≡ ok m =
        ap (λ (xs : List ℤ). index xs (pos (length xs) +ℤ negsuc 0)) es-eq ∙ h3 in
      (
        cc (same, k6),
        fresh,
        record {
          last_epoch = m;
          users_limit = n;
          last = last;
          limit = h4;
          users_fresh = users;
          users_known = known;
        },
      )

  pub each_ceremony-eq-ok :
      (counts : List ℤ) (cs : List (Ceremony F)) (used used' : List ℤ)
      → each_with (validate_ceremony counts) cs used ≡ ok used'
      → Fresh used (ceremony_epochs cs) × All (IsCeremony counts) cs
  each_ceremony-eq-ok counts [] used used' h = (tt, tt)
  each_ceremony-eq-ok counts (c ∷ cs) used used' h =
      let (used1, h1, h2) =
        >>=-eq-ok (validate_ceremony counts c used) (each_with (validate_ceremony counts) cs) h in
      let (same, fresh, good) = validate_ceremony-eq-ok counts c used used1 h1 in
      let (fresh', good') =
        each_ceremony-eq-ok counts cs (filled used (numbers_of c.epochs)) used' (rw same at h2) in
      (Fresh-append used (numbers_of c.epochs) (ceremony_epochs cs) fresh fresh', (good, good'))

  -- Accepted ceremonies name no epoch twice, neither in one ceremony nor in two; each has a last
  -- epoch, and names users only below the count that is looked up for that epoch, and none twice.
  pub validate_ceremonies-Fresh :
      (cs : List (Ceremony F)) (counts : List ℤ)
      → validate_ceremonies cs counts ≡ ok tt
      → Fresh [] (ceremony_epochs cs) × All (IsCeremony counts) cs
  unfolding validate_ceremonies
  validate_ceremonies-Fresh cs counts h =
      let (used, h1, _) = >>=-eq-ok (each_with (validate_ceremony counts) cs []) _ h in
      each_ceremony-eq-ok counts cs [] used h1

  -- A ceremony whose epochs are a range with its ends in the wrong order, such as "5-3", is no
  -- error for the validation: it panics on the index of the last epoch, whatever else the ceremony
  -- holds and whichever epochs are used.
  pub validate_ceremony_panics :
      (counts : List ℤ) (c : Ceremony F) (used : List ℤ) (a b : Bytes)
      → IsDecimal a
      → IsDecimal b
      → value 0 b < value 0 a
      → c.epochs ≡ rows_text (interval a b) []
      → validate_ceremony counts c used ≡ panic index_out_of_range
  unfolding validate_ceremony validate_epochs ignore_error flat_map
  validate_ceremony_panics counts c used a b ha hb h e =
      let none_left : value 0 b + 1 - value 0 a ≡ 0 = omega arith in
      let read : parse_nums c.epochs ≡ ok [] =
        ap parse_nums e
        ∙ parse_nums-rows_text (interval a b) [] ((ha, hb), tt)
        ∙ ap (λ n. ok (consecutive (value 0 a) n ++ [])) none_left in
      rw read
