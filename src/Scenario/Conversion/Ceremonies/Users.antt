-- ===== src/Scenario/Conversion/Ceremonies/Users.antt =====
-- scenario/conversion.go: the ceremony of an epoch and of a user; scenario/internal.go: the answers of a
-- session.
use idena_test_go.Prelude.{
  ℕ, zero, suc, ◌+◌, ◌<◌, ◌≡◌, refl, ap, ◌∙◌, Bool, true, false, List, [], ◌∷◌, none, some, arith,
  All, if◌then◌else◌, length, get_elem?,
}
use idena_test_go.Prelude.Int.{ℤ, pos, ◌==ℤ◌}
use idena_test_go.Prelude.Dict.{Dict, lookup, insert, lookup-insert}
use idena_test_go.Prelude.Result.{ok}
use idena_test_go.Scenario.Incoming
use idena_test_go.Scenario.Model
use idena_test_go.Scenario.Nums.{parse_nums}
use idena_test_go.Scenario.Nums.Pieces.{numbers_of}
use idena_test_go.Scenario.Counts.{ignore_error}
use idena_test_go.Scenario.Conversion.Loops.{over, over_lem, each_with_lem, get_or, get_or-insert}
use idena_test_go.Scenario.Conversion.Epochs.Pairs.{names, last_value}
use idena_test_go.Scenario.Conversion.Ceremonies.{
  convert_user_ceremony, add_user_ceremony, convert_user_ceremonies, answers_of, answer_at,
  answers_from, get_answers,
}

-- A loop that assigns one value to every number of a list.
lookup-over :
    {V : Type 0} (k : ℤ) (v : V) (keys : List ℤ) (m : Dict V)
    → lookup k (over (λ key. insert key v) keys m) ≡ (if names k keys then some v else lookup k m)
lookup-over k v [] m = refl
lookup-over k v (key ∷ keys) m =
    ground (arith, lookup-over k v keys (insert key v m), lookup-insert key k v m)

-- User ceremonies with readable users are converted, without an error or a panic, to the map that holds
-- for each user the last section that names the user, and nothing where none does.
pub convert_user_ceremonies_lem :
    {F : Type 0} (ucs : List (Incoming.UserCeremony F))
    → All (λ uc. parse_nums uc.users ≡ ok (numbers_of uc.users)) ucs
    → (m : Dict Model.UserCeremony) × (convert_user_ceremonies ucs ≡ ok m)
      × ((user : ℤ)
          → lookup user m
            ≡ last_value (λ uc. names user (numbers_of uc.users)) convert_user_ceremony ucs none)
unfolding convert_user_ceremonies add_user_ceremony ignore_error lookup
convert_user_ceremonies_lem {F} ucs h =
    let run : Incoming.UserCeremony F → Dict Model.UserCeremony → Dict Model.UserCeremony =
      λ uc. over (λ user. insert user (convert_user_ceremony uc)) (numbers_of uc.users) in
    (
      over run ucs [],
      each_with_lem (λ uc. parse_nums uc.users ≡ ok (numbers_of uc.users)) add_user_ceremony run
          (λ uc r m. rw r refl) ucs h [],
      λ user.
          over_lem (lookup user) run
            (λ uc o.
              if names user (numbers_of uc.users) then some (convert_user_ceremony uc) else o)
            (λ uc m. lookup-over user (convert_user_ceremony uc) (numbers_of uc.users) m) ucs [],
    )

length-answers_from : (a : Model.Answers) (i n : ℕ) → length (answers_from a i n) ≡ n
unfolding answers_from
length-answers_from a i zero = refl
length-answers_from a i (suc n) = ap suc (length-answers_from a (suc i) n)

get_elem?-answers_from :
    (a : Model.Answers) (i n j : ℕ)
    → j < n
    → get_elem? (answers_from a i n) j ≡ some (answer_at a (i + j))
unfolding answers_from
get_elem?-answers_from a i zero j h = absurd (omega arith)
get_elem?-answers_from a i (suc n) zero h = ap (λ k. some (answer_at a k)) (omega arith)
get_elem?-answers_from a i (suc n) (suc j) h =
    get_elem?-answers_from a (suc i) n j (omega arith)
    ∙ ap (λ k. some (answer_at a k)) (omega arith)

-- The answer of the last item for an index, or else another.
abbrev pub given : ℤ → ℕ → List Incoming.Answer → ℕ
given i answer [] = answer
given i answer (item ∷ items) = given i (if item.index ==ℤ i then item.answer else answer) items

given_lem :
    (i : ℤ) (d : ℕ) (items : List Incoming.Answer) (answers : Dict ℕ) (presences : Dict Bool)
    → (if get_or false i (over (λ a. insert a.index true) items presences)
        then get_or 0 i (over (λ a. insert a.index a.answer) items answers)
        else d)
      ≡ given i (if get_or false i presences then get_or 0 i answers else d) items
given_lem i d [] answers presences = refl
given_lem i d (item ∷ items) answers presences =
    given_lem i d items (insert item.index item.answer answers) (insert item.index true presences)
    ∙ ap (λ x. given i x items)
        (ground (
          arith,
          get_or-insert false true item.index i presences,
          get_or-insert 0 item.answer item.index i answers,
        ))

zero-plus : (i : ℕ) → 0 + i ≡ i
zero-plus i = omega arith

-- For any number of flips, the answers of a session are that many, and the one at each index is the
-- answer of the last item for that index, or the default answer where there is no such item.
pub get_answers_lem :
    (default_answer : ℕ) (items : List Incoming.Answer) (count : ℕ)
    → (length (get_answers (answers_of default_answer items) (pos count)) ≡ count)
      × ((i : ℕ)
          → i < count
          → get_elem? (get_answers (answers_of default_answer items) (pos count)) i
            ≡ some (given (pos i) default_answer items))
unfolding get_answers answers_of answer_at get_or
get_answers_lem default_answer items count = (
  length-answers_from (answers_of default_answer items) 0 count,
  λ i h.
      get_elem?-answers_from (answers_of default_answer items) 0 count i h
      ∙ ap (λ k. some (answer_at (answers_of default_answer items) k)) (zero-plus i)
      ∙ ap some (given_lem (pos i) default_answer items [] []),
)
