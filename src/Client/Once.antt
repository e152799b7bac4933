-- ===== src/Client/Once.antt =====
-- client/client.go: the calls that send something to the network are not sent again.
use idena_test_go.Prelude.{ℕ, ◌<◌, ◌≡◌, ap, true, false, List, [], ◌∷◌, Option, String, Bytes, All}
use idena_test_go.Prelude.Float.{Float}
use idena_test_go.Client.{Client, Request, Payload, FlipAnswer, call, request_of}
use idena_test_go.Client.Loop.{failed}
use idena_test_go.Client.Retry.{call-once}
use idena_test_go.Client.Calls.{
  send_invite, submit_flip, submit_short_answers, submit_long_answers, change_profile,
  submit_raw_flip, send_public_encryption_key, send_private_encryption_keys_package,
}
use idena_test_go.Client.Calls.Texts.{
  text_of, activate_invite, delete_flip, become_online, become_offline, burn, store_to_ipfs,
  send_raw_tx, send_transaction,
}

module _ {F X R : Type 0} ⦃float : Float F⦄ (c : Client F X R) where
  next-once :
      (method : String) (payload : Payload F X) (timeout_sec : ℕ)
      → 0 < c.fuel
      → ((req : Request F X) (t : ℕ) → failed (c.outcomes req t 0) ≡ true)
      → (call c method payload timeout_sec false).next ≡ 1
  next-once method payload timeout_sec enough down =
      ap (λ p. p.next)
        (call-once c method payload timeout_sec enough
          (down (request_of c method payload) timeout_sec))

  -- How often each call that sends something is sent.
  abbrev pub sending_attempts :
      (as_text : R → Option String) (encode : Bytes → String) (to hash : String) (amount fee : F)
      (params : X) (answers : List FlipAnswer) (bytes : Bytes) (nickname : Option String) (n : ℕ)
      → List ℕ
  sending_attempts as_text encode to hash amount fee params answers bytes nickname n =
      (send_invite c to amount).next
      ∷ (activate_invite as_text c params).next
      ∷ (submit_flip c to hash n).next
      ∷ (delete_flip as_text c hash).next
      ∷ (submit_short_answers c answers).next
      ∷ (submit_long_answers c answers).next
      ∷ (become_online as_text c).next
      ∷ (become_offline as_text c).next
      ∷ (send_transaction as_text c n to nickname amount fee nickname).next
      ∷ (burn as_text c to amount fee hash).next
      ∷ (change_profile c nickname bytes).next
      ∷ (store_to_ipfs as_text c hash).next
      ∷ (send_raw_tx as_text c encode bytes).next
      ∷ (submit_raw_flip c params).next
      ∷ (send_public_encryption_key c params).next
      ∷ (send_private_encryption_keys_package c params).next
      ∷ []

-- Where the first attempt of a request fails, each of the calls that send something to the network
-- (invites and their activation, flips and their deletion, answers, the online status, transactions,
-- profiles, encryption keys) makes this one attempt and no other, whatever its arguments are.
pub sending_attempts_lem :
    {F X R : Type 0} ⦃float : Float F⦄ (c : Client F X R) (as_text : R → Option String)
    (encode : Bytes → String) (to hash : String) (amount fee : F) (params : X)
    (answers : List FlipAnswer) (bytes : Bytes) (nickname : Option String) (n : ℕ)
    → 0 < c.fuel
    → ((req : Request F X) (t : ℕ) → failed (c.outcomes req t 0) ≡ true)
    → All
        (λ attempts. attempts ≡ 1)
        (sending_attempts c as_text encode to hash amount fee params answers bytes nickname n)
unfolding text_of
sending_attempts_lem {F} {X} c as_text encode to hash amount fee params answers bytes nickname n
      enough down =
    let once : (m : String) (p : Payload F X) (t : ℕ) → (call c m p t false).next ≡ 1 =
      λ m p t. next-once c m p t enough down in
    (
      once _ _ _,
      (
        once _ _ _,
        (
          once _ _ _,
          (
            once _ _ _,
            (
              once _ _ _,
              (
                once _ _ _,
                (
                  once _ _ _,
                  (
                    once _ _ _,
                    (
                      once _ _ _,
                      (
                        once _ _ _,
                        (
                          once _ _ _,
                          (once _ _ _, (once _ _ _, (once _ _ _, (once _ _ _, (once _ _ _, tt))))),
                        ),
                      ),
                    ),
                  ),
                ),
              ),
            ),
          ),
        ),
      ),
    )
