-- ===== src/Scenario/Validation/Inviters.antt =====
-- `validateAllNewUsers` of scenario/validation.go: which sections of new users count as repeated.
use idena_test_go.Prelude.{ℕ, ◌≡◌, ◌≢◌, ◌⊎◌, inl, inr, refl, false, some, List, [], ◌∷◌, arith, All}
use idena_test_go.Prelude.Int.{ℤ, pos, leb_ℤ, ltb_ℤ, ◌≤ℤ◌, ==ℤ_iff}
use idena_test_go.Prelude.Result.{ok, each_with}
use idena_test_go.Scenario.Incoming.{Ref, NewUsers}
use idena_test_go.Scenario.Nums.{parse_nums}
use idena_test_go.Scenario.Nums.Pieces.{parse_nums-IsIndex, All-nonneg}
use idena_test_go.Scenario.Validation.{
  EpochNode, has_key, validate_epoch_node, validate_epoch_nodes, validate_new_users,
  validate_all_new_users, validate_positive_int, validate_not_negative_int,
}
use idena_test_go.Scenario.Validation.Keys.{NotIn, Fresh}

-- No key has this epoch and this address.
abbrev IsFree : ℤ → ℕ → List EpochNode → Type 0
IsFree e a = All (λ k. (k.0 ≢ e) ⊎ (k.1 ≢ some a))

abbrev LacksAddress : ℕ → List EpochNode → Type 0
LacksAddress a = All (λ k. k.1 ≢ some a)

abbrev pushed : ℕ → List EpochNode → List ℤ → List EpochNode
pushed a used [] = used
pushed a used (e ∷ es) = pushed a ((e, some a) ∷ used) es

has_key-IsFree :
    (e : ℤ) (a : ℕ) (used : List EpochNode) → IsFree e a used → has_key (e, some a) used ≡ false
unfolding has_key
has_key-IsFree e a [] h = refl
has_key-IsFree e a ((f, m) ∷ used) h = ground (arith, ==ℤ_iff f e, has_key-IsFree e a used h.1)

LacksAddress-IsFree :
    (e : ℤ) (a : ℕ) (used : List EpochNode) → LacksAddress a used → IsFree e a used
LacksAddress-IsFree e a [] h = tt
LacksAddress-IsFree e a (k ∷ used) h = (inr h.0, LacksAddress-IsFree e a used h.1)

LacksAddress-pushed :
    (a b : ℕ) (es : List ℤ) (used : List EpochNode)
    → b ≢ a
    → LacksAddress a used
    → LacksAddress a (pushed b used es)
LacksAddress-pushed a b [] used ne h = h
LacksAddress-pushed a b (e ∷ es) used ne h =
    LacksAddress-pushed a b es ((e, some b) ∷ used) ne ((λ same. ne (cc same)), h)

each_epoch_node_lem :
    (r : Ref) (done es : List ℤ) (used : List EpochNode)
    → ((x : ℤ) → NotIn x done → IsFree x r.address used)
    → Fresh done es
    → All (λ e. pos 0 ≤ℤ e) es
    → each_with (validate_epoch_node (some r)) es used ≡ ok (pushed r.address used es)
unfolding validate_epoch_node
each_epoch_node_lem r done [] used free fresh low = refl
each_epoch_node_lem r done (e ∷ es) used free fresh low = ground (
  arith,
  has_key-IsFree e r.address used (free e fresh.0),
  each_epoch_node_lem r (e ∷ done) es ((e, some r.address) ∷ used)
      (λ x h. (inl (λ same. h.0 same), free x h.1)) fresh.1 low.1,
)

module _ {F : Type 0} where
  -- A section that is right by itself: it has an inviter, not negative, a positive count, and
  -- epochs with no repetition.
  pub record IsSection (u : NewUsers F) : Type 0 where
    pub inviter : Ref
    pub points : u.inviter ≡ some inviter
    pub inviter_nonneg : pos 0 ≤ℤ inviter.target
    pub count_positive : pos 1 ≤ℤ u.count
    pub epochs : List ℤ
    pub reads : parse_nums u.epochs ≡ ok epochs
    pub epochs_fresh : Fresh [] epochs

  -- The inviter at an address is not that of any of the sections.
  abbrev pub IsElsewhere : ℕ → (us : List (NewUsers F)) → All IsSection us → Type 0
  IsElsewhere a [] h = Unit
  IsElsewhere a (u ∷ us) h = (a ≢ h.0.inviter.address) × IsElsewhere a us h.1

  -- Every section has its inviter at an address of its own.
  abbrev pub OwnAddresses : (us : List (NewUsers F)) → All IsSection us → Type 0
  OwnAddresses [] h = Unit
  OwnAddresses (u ∷ us) h = IsElsewhere h.0.inviter.address us h.1 × OwnAddresses us h.1

  abbrev AreLacked : List EpochNode → (us : List (NewUsers F)) → All IsSection us → Type 0
  AreLacked used [] h = Unit
  AreLacked used (u ∷ us) h = LacksAddress h.0.inviter.address used × AreLacked used us h.1

  AreLacked-nil : (us : List (NewUsers F)) (h : All IsSection us) → AreLacked [] us h
  AreLacked-nil [] h = tt
  AreLacked-nil (u ∷ us) h = (tt, AreLacked-nil us h.1)

  AreLacked-pushed :
      (b : ℕ) (es : List ℤ) (used : List EpochNode) (us : List (NewUsers F)) (h : All IsSection us)
      → IsElsewhere b us h
      → AreLacked used us h
      → AreLacked (pushed b used es) us h
  AreLacked-pushed b es used [] h ne k = tt
  AreLacked-pushed b es used (u ∷ us) h ne k = (
    LacksAddress-pushed h.0.inviter.address b es used ne.0 k.0,
    AreLacked-pushed b es used us h.1 ne.1 k.1,
  )

  validate_new_users_lem :
      (u : NewUsers F) (s : IsSection u) (used : List EpochNode)
      → LacksAddress s.inviter.address used
      → validate_new_users u used ≡ ok (pushed s.inviter.address used s.epochs)
  unfolding validate_new_users validate_epoch_nodes validate_positive_int validate_not_negative_int
  validate_new_users_lem u s used h =
      let r = s.inviter in
      let loop =
        each_epoch_node_lem r [] s.epochs used (λ x _. LacksAddress-IsFree x r.address used h)
          s.epochs_fresh (All-nonneg s.epochs (parse_nums-IsIndex u.epochs s.epochs s.reads)) in
      let count : leb_ℤ u.count (pos 0) ≡ false = ground (arith, s.count_positive) in
      let target : ltb_ℤ r.target (pos 0) ≡ false = ground (arith, s.inviter_nonneg) in
      rw (s.reads, s.points, loop, count, target)

  each_new_users_lem :
      (us : List (NewUsers F)) (h : All IsSection us) (used : List EpochNode)
      → OwnAddresses us h
      → AreLacked used us h
      → (used' : List EpochNode) × (each_with validate_new_users us used ≡ ok used')
  each_new_users_lem [] h used own lacks = (used, refl)
  each_new_users_lem (u ∷ us) h used own lacks =
      let s = h.0 in
      let (used', rest) =
        each_new_users_lem us h.1 (pushed s.inviter.address used s.epochs) own.1
          (AreLacked-pushed s.inviter.address s.epochs used us h.1 own.0 lacks.1) in
      (used', rw (validate_new_users_lem u s used lacks.0) rest)

  -- Sections that are right by themselves, and whose inviters stand at different addresses, are
  -- accepted together, whatever inviters and epochs they have: also where two of them name the same
  -- inviter in the same epoch.
  pub validate_all_new_users_lem :
      (us : List (NewUsers F)) (h : All IsSection us)
      → OwnAddresses us h
      → validate_all_new_users us ≡ ok tt
  unfolding validate_all_new_users
  validate_all_new_users_lem us h own =
      let (used, accepted) = each_new_users_lem us h [] own (AreLacked-nil us h) in rw accepted
