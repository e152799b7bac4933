-- ===== src/Api/Pools.antt =====
-- api/api.go: the pools against a queue of free places.
use idena_test_go.Prelude.{
  ℕ, zero, suc, ◌+◌, ◌≤◌, ◌≡◌, ◌⊎◌, inl, inr, refl, sym, ap, ◌∙◌, true, false, List, [], ◌∷◌, ◌++◌,
  none, some, Bytes, length, get_elem?, get_elem-below, take, drop, repeat, ltb, arith,
}
use idena_test_go.Prelude.Int.{ℤ, pos, negsuc, pos_part, ltb_ℤ, ◌+ℤ◌, int_laws}
use idena_test_go.Prelude.Result.{Result, ok}
use idena_test_go.Api.{take_slot, assign, runs, PoolsCtx, update_pools, response_of}

-- The owner of each free place, in the order of the pools.
abbrev pub places : List ℤ → List Bytes → List Bytes
places [] owners = []
places (size ∷ sizes) [] = []
places (size ∷ sizes) (owner ∷ owners) = repeat (pos_part size) owner ++ places sizes owners

-- The first pool with a free place is that of the first place, and taking the place from it leaves the
-- other places.
abbrev Taken : List ℤ → List Bytes → ℕ → List ℤ → Type 0
Taken sizes owners idx sizes' =
    (owner : Bytes) × (get_elem? owners idx ≡ some owner)
    × (places sizes owners ≡ owner ∷ places sizes' owners)
    × (length sizes' ≡ length sizes)

minus_one : (n : ℕ) → pos (suc n) +ℤ negsuc 0 ≡ pos n
minus_one n = omega int_laws

is_positive : (n : ℕ) → ltb_ℤ (pos 0) (pos (suc n)) ≡ true
is_positive n = ground arith

not_positive : (n : ℕ) → ltb_ℤ (pos 0) (negsuc n) ≡ false
not_positive n = ground arith

take_slot_lem :
    (sizes : List ℤ) (owners : List Bytes)
    → length sizes ≤ length owners
    → ((take_slot sizes ≡ none) × (places sizes owners ≡ []))
      ⊎ ((idx : ℕ) × (sizes' : List ℤ) × (take_slot sizes ≡ some (idx, sizes'))
          × Taken sizes owners idx sizes')
unfolding take_slot
take_slot_lem [] owners h = inl (refl, refl)
take_slot_lem (size ∷ sizes) [] h = absurd (omega arith)
take_slot_lem (pos (suc n) ∷ sizes) (owner ∷ owners) h =
    inr (0, (pos n ∷ sizes), rw (is_positive n, minus_one n) refl, (owner, refl, refl, refl))
take_slot_lem (pos zero ∷ sizes) (owner ∷ owners) h =
    elim (take_slot_lem sizes owners (omega arith)) [
      | inl (e, none_left) ↦ inl (rw e refl, none_left)
      | inr (idx, sizes', e, (o, at, places_left, len)) ↦
          inr (suc idx, (pos zero ∷ sizes'), rw e refl, (o, at, places_left, ap suc len))
    ]
take_slot_lem (negsuc n ∷ sizes) (owner ∷ owners) h =
    elim (take_slot_lem sizes owners (omega arith)) [
      | inl (e, none_left) ↦ inl (rw (not_positive n, e) refl, none_left)
      | inr (idx, sizes', e, (o, at, places_left, len)) ↦ inr (
        suc idx,
        (negsuc n ∷ sizes'),
        rw (not_positive n, e) refl,
        (o, at, places_left, ap suc len),
      )
    ]

module _ {A : Type 0} where
  take-nil : (n : ℕ) (xs : List A) → xs ≡ [] → take n xs ≡ []
  take-nil zero xs h = refl
  take-nil (suc n) xs h = rw h refl

  drop-nil : (n : ℕ) (xs : List A) → xs ≡ [] → drop n xs ≡ []
  drop-nil zero xs h = h
  drop-nil (suc n) xs h = rw h refl

-- The sizes after a run of the loop, and the delegatees: the first places of the queue are given out.
abbrev GivesOut : List Bytes → (List ℤ × Result (List Bytes)) → ℕ → List ℤ → Type 0
GivesOut owners result n sizes =
    (sizes' : List ℤ) × (result ≡ (sizes', ok (take n (places sizes owners))))
    × (places sizes' owners ≡ drop n (places sizes owners))
    × (length sizes' ≡ length sizes)

assign_lem :
    (owners addresses : List Bytes) (n i : ℕ) (sizes : List ℤ)
    → length sizes ≤ length owners
    → i + n ≤ length addresses
    → GivesOut owners (assign owners addresses n i sizes) n sizes
unfolding assign
assign_lem owners addresses zero i sizes h room = (sizes, refl, refl, refl)
assign_lem owners addresses (suc n) i sizes h room = elim (take_slot_lem sizes owners h) [
  | inl (e, none_left) ↦
      let (sizes', run, left, len) = assign_lem owners addresses n (suc i) sizes h (omega arith) in
      let ps = places sizes owners in
      (
        sizes',
        rw (assign, e)
            (run
              ∙ ap (λ given. (sizes', ok given))
                  (take-nil n ps none_left ∙ sym (take-nil (suc n) ps none_left))),
        left ∙ drop-nil n ps none_left ∙ sym (drop-nil (suc n) ps none_left),
        len,
      )
  | inr (idx, sizes1, e, (owner, at, first, same)) ↦
      let (sizes', run, left, len) =
        assign_lem owners addresses n (suc i) sizes1 (omega arith) (omega arith) in
      let (delegator, there) = get_elem-below addresses i (omega arith) in
      (
        sizes',
        rw (assign, e, at, there, run, first) refl,
        left ∙ ap (drop (suc n)) (sym first),
        len ∙ same,
      )
]

-- The places of the pools, and how many of them a request for as many addresses takes.
abbrev pub queue : PoolsCtx → List Bytes
queue ctx = places ctx.pool_sizes ctx.pool_addresses

abbrev pub asked_for : PoolsCtx → List Bytes → ℕ
asked_for ctx addresses = runs (ctx.count (length addresses))

-- Once every pool has its owner, the pools are a queue of free places, each with the owner of its pool: a
-- request takes as many from its front as the rate asks for, or as many as are left, answers with their
-- owners, and leaves the rest in the queue. The rate must not ask for more than the addresses of the
-- request, of which there is at least one.
pub update_pools-queue :
    (ctx : PoolsCtx) (address : Bytes) (addresses : List Bytes)
    → length ctx.pool_sizes ≤ length ctx.pool_addresses
    → asked_for ctx (address ∷ addresses) ≤ length (address ∷ addresses)
    → (ctx' : PoolsCtx) × (update_pools ctx (address ∷ addresses)
        ≡ (ctx', ok (response_of (take (asked_for ctx (address ∷ addresses)) (queue ctx)))))
      × (queue ctx' ≡ drop (asked_for ctx (address ∷ addresses)) (queue ctx))
      × (length ctx'.pool_sizes ≤ length ctx'.pool_addresses)
unfolding update_pools
update_pools-queue ctx address addresses h few =
    let n = asked_for ctx (address ∷ addresses) in
    let (sizes, run, left, len) =
      assign_lem ctx.pool_addresses (address ∷ addresses) n 0 ctx.pool_sizes h (omega arith) in
    let full : ltb (length ctx.pool_addresses) (length ctx.pool_sizes) ≡ false = ground arith in
    (record ctx { pool_sizes = sizes }, rw (full, run) refl, left, omega arith)
