-- ===== src/Process/Users/Numbers.antt =====
-- process/process.go: users are numbered in the order in which they are created, and their nodes are apart.
use mathlib.Core.Path.{subst}
use idena_test_go.Prelude.{
  ℕ, zero, suc, ◌+◌, ◌<◌, ◌≤◌, ◌≡◌, ◌≢◌, refl, sym, ap, ◌∙◌, ◌⊎◌, inl, inr, List, [], ◌∷◌, ◌++◌,
  Option, none, some, Bytes, length, length-append, get_elem?, get_elem-below, append_assoc,
  append-nil, arith,
}
use idena_test_go.Prelude.Int.{ℤ, pos, pos_part}
use idena_test_go.Prelude.Result.{Result, ok, ◌>>=◌, index}
use idena_test_go.Node.{Node}
use idena_test_go.Node.Setup.{get_config_file_full_name, log_file, node_dir}
use idena_test_go.Node.Setup.Written.{
  get_config_file_full_name-index, log_file-index, node_dir-index,
}
use idena_test_go.Process.Users.{
  Settings, ProcessUser, Users, node_of, own_user, shared_user, create_user, create_loop,
  create_users, get_node_data_dir, get_rpc_port,
}

-- A node as `createUser` makes it for the index.
abbrev pub IsNodeAt : Settings → ℕ → Node → Type 0
IsNodeAt s i node =
    (node.index ≡ i)
    × (node.rpc_port ≡ s.first_rpc_port + s.first_port_offset + i)
    × (node.port ≡ s.first_port + s.first_port_offset + i)
    × (node.ipfs_port ≡ s.first_ipfs_port + s.first_port_offset + i)
    × (node.work_dir ≡ s.node.work_dir)
    × (node.data_dir ≡ s.node.data_dir)
    × (node.node_data_dir ≡ get_node_data_dir i (s.first_rpc_port + s.first_port_offset + i))

-- A user at its place, with its own node or none.
abbrev pub IsPlaced : Settings → ℕ → ProcessUser → Type 0
IsPlaced s i u =
    (u.index ≡ i) × ((u.node ≡ none) ⊎ ((node : Node) × (u.node ≡ some node) × IsNodeAt s i node))

-- The users are at their places from the `i`-th on.
abbrev pub IsNumbered : Settings → ℕ → List ProcessUser → Type 0
IsNumbered s i [] = Unit
IsNumbered s i (u ∷ users) = IsPlaced s i u × IsNumbered s (suc i) users

index-found :
    (xs : List ProcessUser) (k : ℕ) (x : ProcessUser)
    → get_elem? xs k ≡ some x
    → index xs (pos k) ≡ ok x
index-found xs k x found = rw (index, found) refl

same_place : (z : ℤ) (k : ℕ) → Path (Option ℤ) (some z) (some (pos k)) → z ≡ pos k
same_place z k e = cc

module _ (s : Settings) where
  IsNumbered-append :
      (i : ℕ) (users : List ProcessUser) (u : ProcessUser)
      → IsNumbered s i users
      → IsPlaced s (length users + i) u
      → IsNumbered s i (users ++ u ∷ [])
  IsNumbered-append i [] u h placed = (subst (λ n. IsPlaced s n u) (omega arith) placed, tt)
  IsNumbered-append i (v ∷ users) u h placed = (
    h.0,
    IsNumbered-append (suc i) users u h.1 (subst (λ n. IsPlaced s n u) (omega arith) placed),
  )

  IsNumbered-get_elem :
      (i k : ℕ) (users : List ProcessUser) (u : ProcessUser)
      → IsNumbered s i users
      → get_elem? users k ≡ some u
      → IsPlaced s (k + i) u
  IsNumbered-get_elem i k [] u h e = cc
  IsNumbered-get_elem i zero (v ∷ users) u h e =
      let same : v ≡ u = cc in
      subst (λ w. IsPlaced s (0 + i) w) same (subst (λ n. IsPlaced s n v) (omega arith) h.0)
  IsNumbered-get_elem i (suc k) (v ∷ users) u h e =
      subst (λ n. IsPlaced s n u) (omega arith) (IsNumbered-get_elem (suc i) k users u h.1 e)

  -- One more user at the end, and how the state grows.
  abbrev pub Grows : (n : ℕ) → Users → Result Users → Type 0
  Grows n state result =
      (new : List ProcessUser) × (after : Users) × (result ≡ ok after)
      × (after.users ≡ state.users ++ new)
      × (length new ≡ n)
      × IsNumbered s 0 after.users

  -- The node to share, if there is one, belongs to a user that is there.
  abbrev pub IsThere : Option ℤ → Users → Type 0
  IsThere shared state =
      (shared ≡ none) ⊎ ((k : ℕ) × (shared ≡ some (pos k)) × (k < length state.users))

  own_user-Grows :
      (command : Bytes) (state : Users)
      → IsNumbered s 0 state.users
      → Grows 1 state (ok (own_user s command state (length state.users)))
  unfolding own_user node_of
  own_user-Grows command state h =
      let place : length state.users ≡ length state.users + 0 = omega arith in
      let data_dir_at : get_node_data_dir (length state.users) (get_rpc_port s (length state.users))
          ≡ get_node_data_dir (length state.users + 0)
              (s.first_rpc_port + s.first_port_offset + (length state.users + 0)) =
        ap (λ n. get_node_data_dir n (s.first_rpc_port + s.first_port_offset + n)) place in
      (
        _,
        own_user s command state (length state.users),
        refl,
        refl,
        omega arith,
        IsNumbered-append 0 state.users _ h (
          omega arith,
          inr (
            _,
            refl,
            (omega arith, omega arith, omega arith, omega arith, refl, refl, data_dir_at),
          ),
        ),
      )

  shared_user-Grows :
      (state : Users) (k : ℕ) (parent : ProcessUser)
      → IsNumbered s 0 state.users
      → Grows 1 state (ok (shared_user s state (length state.users) k parent))
  unfolding shared_user
  shared_user-Grows state k parent h = (
    _,
    shared_user s state (length state.users) k parent,
    refl,
    refl,
    omega arith,
    IsNumbered-append 0 state.users _ h (omega arith, inl refl),
  )

  create_user-Grows :
      (command : Bytes) (shared : Option ℤ) (state : Users)
      → IsNumbered s 0 state.users
      → IsThere shared state
      → Grows 1 state (create_user s command shared state (length state.users))
  unfolding create_user
  create_user-Grows command none state h there = own_user-Grows command state h
  create_user-Grows command (some z) state h (inl e) = cc
  create_user-Grows command (some z) state h (inr (k, e, below)) =
      let (parent, found) = get_elem-below state.users k below in
      let there : index state.users z ≡ ok parent =
        ap (index state.users) (same_place z k e) ∙ index-found state.users k parent found in
      subst
        (λ r.
          Grows 1 state (r >>= (λ p. ok (shared_user s state (length state.users) (pos_part z) p))))
        (sym there) (shared_user-Grows state (pos_part z) parent h)

  IsThere-later :
      (shared : Option ℤ) (a b : Users)
      → length a.users ≤ length b.users
      → IsThere shared a
      → IsThere shared b
  IsThere-later shared a b h (inl e) = inl e
  IsThere-later shared a b h (inr (k, e, below)) = inr (k, e, omega arith)

  -- The loop goes on from where the users end.
  create_loop-Grows :
      (n : ℕ) (command : Bytes) (shared : Option ℤ) (state : Users)
      → IsNumbered s 0 state.users
      → IsThere shared state
      → Grows n state (create_loop s command shared n (length state.users) state)
  unfolding create_loop
  create_loop-Grows zero command shared state h there =
      ([], state, refl, sym (append-nil state.users), refl, h)
  create_loop-Grows (suc n) command shared state h there =
      let (one, middle, made, grown, single, numbered) =
        create_user-Grows command shared state h there in
      let now : length middle.users ≡ suc (length state.users) =
        ap length grown ∙ omega (arith, length-append state.users one, single) in
      let (new, after, looped, longer, count, all) =
        create_loop-Grows n command shared middle numbered
          (IsThere-later shared state middle (omega (arith, now)) there) in
      (
        one ++ new,
        after,
        ap (λ r. r >>= create_loop s command shared n (suc (length state.users))) made
            ∙ ap (λ m. create_loop s command shared n m middle) (sym now)
            ∙ looped,
        longer ∙ ap (λ l. l ++ new) grown ∙ append_assoc state.users one new,
        omega (arith, length-append one new, single, count),
        all,
      )

  -- Creating users puts new ones behind those that are there, each at its place, if the node that they share
  -- belongs to a user that is there; so every user has the index at which it stands.
  pub create_users-IsNumbered :
      (count : ℕ) (command : Bytes) (shared : Option ℤ) (state : Users)
      → IsNumbered s 0 state.users
      → IsThere shared state
      → (new : List ProcessUser) × (after : Users) × (create_users s count command shared state
          ≡ ok after)
        × (after.users ≡ state.users ++ new)
        × (length new ≡ count)
        × IsNumbered s 0 after.users
  unfolding create_users
  create_users-IsNumbered count command shared state h there =
      create_loop-Grows count command shared state h there

  node-IsNodeAt :
      (i : ℕ) (users : List ProcessUser) (u : ProcessUser) (node : Node)
      → IsNumbered s 0 users
      → get_elem? users i ≡ some u
      → u.node ≡ some node
      → IsNodeAt s i node
  node-IsNodeAt i users u node h e own = elim (IsNumbered-get_elem 0 i users u h e).1 [
    | inl shared ↦ cc
    | inr (found, has, at) ↦
        let same : found ≡ node = cc in
        let place : i + 0 ≡ i = omega arith in
        subst (λ n. IsNodeAt s i n) same (subst (λ m. IsNodeAt s m found) place at)
  ]

  -- Of two nodes of numbered users, the RPC ports differ, and so do the ports, the IPFS ports, the
  -- configuration files, the log files and the directories of the nodes. Ports of different kinds are not
  -- compared.
  pub IsNumbered-apart :
      (i j : ℕ) (users : List ProcessUser) (u v : ProcessUser) (a b : Node)
      → IsNumbered s 0 users
      → get_elem? users i ≡ some u
      → get_elem? users j ≡ some v
      → u.node ≡ some a
      → v.node ≡ some b
      → i ≢ j
      → (a.rpc_port ≢ b.rpc_port)
        × (a.port ≢ b.port)
        × (a.ipfs_port ≢ b.ipfs_port)
        × (get_config_file_full_name a ≢ get_config_file_full_name b)
        × (log_file a ≢ log_file b)
        × (node_dir a ≢ node_dir b)
  unfolding get_node_data_dir
  IsNumbered-apart i j users u v a b h ei ej own_a own_b differ =
      let at = node-IsNodeAt i users u a h ei own_a in
      let bt = node-IsNodeAt j users v b h ej own_b in
      (
        λ e. differ (omega (arith, e, at.1, bt.1)),
        λ e. differ (omega (arith, e, at.2, bt.2)),
        λ e. differ (omega (arith, e, at.3, bt.3)),
        λ e. differ (
            sym at.0
            ∙ get_config_file_full_name-index a b (at.4 ∙ sym bt.4) (at.5 ∙ sym bt.5) e
            ∙ bt.0),
        λ e. differ (sym at.0 ∙ log_file-index a b (at.4 ∙ sym bt.4) (at.5 ∙ sym bt.5) e ∙ bt.0),
        λ e. differ (
            node_dir-index a b i j (s.first_rpc_port + s.first_port_offset + i)
              (s.first_rpc_port + s.first_port_offset + j) (at.4 ∙ sym bt.4) (at.5 ∙ sym bt.5) at.6
              bt.6 e),
      )
