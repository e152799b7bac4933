-- ===== src/User/Sending/Agrees.antt =====
-- user/user_shared.go: what holds of the context of a user all through a test.
use idena_test_go.Prelude.{
  ℕ, ◌≡◌, ap, ◌⊎◌, inl, inr, Bool, true, false, List, Option, none, some, Bytes, if◌then◌else◌,
}
use idena_test_go.Prelude.Result.{Result}
use idena_test_go.User.{TestContext}
use idena_test_go.User.Keys.{
  Signer, SharedNode, derived_key, key_or_derived, kept_key, generate_flip_encryption_key,
}
use idena_test_go.User.Sending.{Outside, open_with_seed, package_for}

-- A key that is kept is the one that the user derives for the epoch.
abbrev pub IsDerived : Signer → Bool → ℕ → Option Bytes → Type 0
IsDerived signer public epoch key = (key ≡ none) ⊎ (key ≡ some (derived_key signer public epoch))

-- What holds of a context all through a test: its epoch, the answers of the short session, and the keys.
pub record Agrees (signer : Signer) (epoch : ℕ) (answers : Bytes) (context : TestContext)
    : Type 0 where
  pub same_epoch : context.epoch ≡ epoch
  pub same_answers : context.short_answers_bytes ≡ answers
  pub public_derived : IsDerived signer true epoch context.public_encryption_key
  pub private_derived : IsDerived signer false epoch context.private_encryption_key

module _ (signer : Signer) (epoch : ℕ) (answers : Bytes) where
  pub key_or_derived-Agrees :
      (public : Bool) (context : TestContext) (key : Option Bytes)
      → Agrees signer epoch answers context
      → IsDerived signer public epoch key
      → Agrees signer epoch answers (key_or_derived signer public context key).0
        × ((key_or_derived signer public context key).1 ≡ derived_key signer public epoch)
  unfolding key_or_derived
  key_or_derived-Agrees public context (some key) h (inl e) = cc
  key_or_derived-Agrees public context (some key) h (inr e) = (h, cc)
  key_or_derived-Agrees true context none h d = (
    record {
      same_epoch = h.same_epoch;
      same_answers = h.same_answers;
      public_derived = inr (ap (λ n. some (derived_key signer true n)) h.same_epoch);
      private_derived = h.private_derived;
    },
    ap (derived_key signer true) h.same_epoch,
  )
  key_or_derived-Agrees false context none h d = (
    record {
      same_epoch = h.same_epoch;
      same_answers = h.same_answers;
      public_derived = h.public_derived;
      private_derived = inr (ap (λ n. some (derived_key signer false n)) h.same_epoch);
    },
    ap (derived_key signer false) h.same_epoch,
  )

  kept_key-IsDerived :
      (public : Bool) (context : TestContext)
      → Agrees signer epoch answers context
      → IsDerived signer public epoch (kept_key public context)
  kept_key-IsDerived true context h = h.public_derived
  kept_key-IsDerived false context h = h.private_derived

  pub generate-Agrees :
      (public : Bool) (context : TestContext)
      → Agrees signer epoch answers context
      → Agrees signer epoch answers (generate_flip_encryption_key signer public context).0
        × ((generate_flip_encryption_key signer public context).1 ≡ derived_key signer public epoch)
  unfolding generate_flip_encryption_key
  generate-Agrees public context h =
      key_or_derived-Agrees public context (kept_key public context) h
        (kept_key-IsDerived public context h)

  pub choose-Agrees :
      (b : Bool) (x y : TestContext × Result (Unit {0}))
      → Agrees signer epoch answers x.0
      → Agrees signer epoch answers y.0
      → Agrees signer epoch answers (if b then x else y).0
  choose-Agrees true x y h h' = h
  choose-Agrees false x y h h' = h'

  module _ {F : Type 0} (o : Outside) (node : SharedNode F) where
    pub open_with_seed-Agrees :
        (context : TestContext) (seed : Option Bytes)
        → Agrees signer epoch answers context
        → Agrees signer epoch answers (open_with_seed o signer node context seed).0
    open_with_seed-Agrees context none h = h
    open_with_seed-Agrees context (some seed) h = record {
      same_epoch = h.same_epoch;
      same_answers = h.same_answers;
      public_derived = h.public_derived;
      private_derived = h.private_derived;
    }

    -- Both keys, one after the other.
    pub both-Agrees :
        (context : TestContext)
        → Agrees signer epoch answers context
        → Agrees signer epoch answers
            (generate_flip_encryption_key signer false
              (generate_flip_encryption_key signer true context).0).0
    both-Agrees context h = (generate-Agrees false _ (generate-Agrees true context h).0).0

    pub package_for-Agrees :
        (context : TestContext) (candidates : Option (List Bytes))
        → Agrees signer epoch answers context
        → Agrees signer epoch answers (package_for o signer node context candidates).0
    unfolding package_for
    package_for-Agrees context none h = h
    package_for-Agrees context (some pub_keys) h = both-Agrees context h
