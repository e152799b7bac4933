-- ===== src/Scenario/Conversion/Ceremonies.antt =====
-- scenario/conversion.go: the ceremonies, their users and assertions, and the answers of a session,
-- with `Get` of scenario/internal.go.
mod Tests
pub mod Users
pub mod Rates
use idena_test_go.Prelude.{
  ℕ, zero, suc, true, false, List, [], ◌∷◌, ◌++◌, map, Option, none, some, if◌then◌else◌, leb,
}
use idena_test_go.Prelude.Int.{ℤ, pos, negsuc, pos_part, ◌+ℤ◌, ◌*ℤ◌, wrap64}
use idena_test_go.Prelude.Dict.{Dict, insert}
use idena_test_go.Prelude.Result.{Result, ok, ◌>>=◌, each_with}
use idena_test_go.Scenario.Incoming
use idena_test_go.Scenario.Model
use idena_test_go.Scenario.Nums.{parse_nums}
use idena_test_go.Scenario.Counts.{ignore_error}
use idena_test_go.Scenario.Conversion.Loops.{numbers, over, get_or}

-- common/utils.go: the answers.
abbrev pub none_answer : ℕ
none_answer = 0

abbrev pub left : ℕ
left = 1

abbrev pub right : ℕ
right = 2

abbrev pub inappropriate : ℕ
inappropriate = 3

unfoldable pub convert_default_answer : ℕ → ℕ
convert_default_answer answer = if leb answer 0 then left else answer

pub convert_state_assertion : Incoming.StateAssertion → Model.StateAssertion
convert_state_assertion a = record { state = a.state; count = a.count }

pub convert_node_assertion : Incoming.NodeAssertion → Model.NodeAssertion
convert_node_assertion a = record {
  made_flips = a.made_flips;
  required_flips = a.required_flips;
  available_invites = a.available_invites;
  state = a.state;
  online = a.online;
}

pub add_node_assertion :
    Incoming.NodeAssertion → Dict Model.NodeAssertion → Result (Dict Model.NodeAssertion)
unfolding convert_node_assertion ignore_error parse_nums insert
add_node_assertion a m = do
  users ← numbers a.users
  ok (over (λ user. insert user (convert_node_assertion a)) users m)

unfoldable pub convert_node_assertions :
    List Incoming.NodeAssertion → Result (Dict Model.NodeAssertion)
unfolding add_node_assertion
convert_node_assertions items = each_with add_node_assertion items []

pub convert_assertion : Option Incoming.Assertion → Result (Option Model.Assertion)
unfolding convert_node_assertions convert_state_assertion
convert_assertion none = ok none
convert_assertion (some a) = do
  nodes ← convert_node_assertions a.nodes
  ok (some (record { nodes = nodes; states = map convert_state_assertion a.states }))

module _ {F : Type 0} where
  pub convert_user_ceremony : Incoming.UserCeremony F → Model.UserCeremony
  convert_user_ceremony uc = record {
    submit_flips = uc.submit_flips;
    skip_validation = uc.skip_validation;
    fail_short_session = uc.fail_short_session;
    skip_epoch = uc.skip_epoch;
  }

  pub add_user_ceremony :
      Incoming.UserCeremony F → Dict Model.UserCeremony → Result (Dict Model.UserCeremony)
  unfolding convert_user_ceremony ignore_error parse_nums insert
  add_user_ceremony uc m = do
    users ← numbers uc.users
    ok (over (λ user. insert user (convert_user_ceremony uc)) users m)

  unfoldable pub convert_user_ceremonies :
      List (Incoming.UserCeremony F) → Result (Dict Model.UserCeremony)
  unfolding add_user_ceremony
  convert_user_ceremonies ucs = each_with add_user_ceremony ucs []

  pub convert_ceremony : Incoming.Ceremony F → Result Model.Ceremony
  unfolding convert_user_ceremonies convert_assertion
  convert_ceremony c = do
    user_ceremonies ← convert_user_ceremonies c.user_ceremonies
    assertion ← convert_assertion c.assertion
    ok (record { user_ceremonies = user_ceremonies; assertion = assertion })

  pub add_ceremony : Incoming.Ceremony F → Dict Model.Ceremony → Result (Dict Model.Ceremony)
  unfolding convert_ceremony ignore_error parse_nums insert
  add_ceremony c m = do
    epochs ← numbers c.epochs
    ceremony ← convert_ceremony c
    ok (over (λ epoch. insert epoch ceremony) epochs m)

  unfoldable pub convert_ceremonies : List (Incoming.Ceremony F) → Result (Dict Model.Ceremony)
  unfolding add_ceremony
  convert_ceremonies cs = each_with add_ceremony cs []

-- The answers' half of `convertAnswers`: those that are given, by the index of the flip.
unfoldable pub answers_of : ℕ → List Incoming.Answer → Model.Answers
unfolding insert
answers_of default_answer items = record {
  default_answer = default_answer;
  answers = over (λ a. insert a.index a.answer) items [];
  presences = over (λ a. insert a.index true) items [];
}

-- The answer of one round of the loop of `Answers.Get`.
pub answer_at : Model.Answers → ℕ → ℕ
unfolding get_or
answer_at a i =
    if get_or false (pos i) a.presences then get_or 0 (pos i) a.answers else a.default_answer

-- The loop from `i`, for `n` more rounds.
pub answers_from : Model.Answers → ℕ → ℕ → List ℕ
unfolding answer_at
answers_from a i zero = []
answers_from a i (suc n) = answer_at a i ∷ answers_from a (suc i) n

-- `Answers.Get`
unfoldable pub get_answers : Model.Answers → ℤ → List ℕ
unfolding answers_from
get_answers a count = answers_from a 0 (pos_part count)

-- `for i := 0; i < n; i++ { result = append(result, answer) }`
pub repeated : ℕ → ℕ → List ℕ
repeated answer zero = []
repeated answer (suc n) = answer ∷ repeated answer n

-- `AnswerRates.Get`, where `rounded count rate` is `int(float32(count)*rate + 0.5)`.
abbrev minus : ℤ → ℤ → ℤ
minus a b = wrap64 (a +ℤ (negsuc 0 *ℤ b))

pub get_answer_rates : {F : Type 0} → (ℤ → F → ℤ) → Model.AnswerRates F → ℤ → List ℕ
unfolding repeated ◌+ℤ◌ ◌*ℤ◌ wrap64
get_answer_rates rounded rates count =
    let left_count = rounded count rates.left in
    let right_count = rounded count rates.right in
    let inappropriate_count = rounded count rates.inappropriate in
    let none_count = minus (minus (minus count left_count) right_count) inappropriate_count in
    repeated left (pos_part left_count)
    ++ repeated right (pos_part right_count)
    ++ repeated inappropriate (pos_part inappropriate_count)
    ++ repeated none_answer (pos_part none_count)
