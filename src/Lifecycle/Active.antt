-- ===== src/Lifecycle/Active.antt =====
-- The set of active descriptors: each connection in it knows its index, and each index its connection.
use lamseryn.Prelude.{
  ℕ, ◌+◌, ◌*◌, ◌%◌, ◌^◌, ◌≤◌, ◌<◌, Bool, true, false, Option, none, some, ◌==◌, if◌then◌else◌, ◌≡◌,
  ◌≢◌, refl, sym, ap, ◌∙◌, arith, inl, inr, Bool-cases, if_both,
}
use lamseryn.Store.{update}
use lamseryn.Wheel.Chain.{update_here, other_node}
use lamseryn.Lifecycle.{ActiveLink, ActiveSet, grow_active, append_fd, add_conn, worker_active_add}

-- The descriptor at an index is that of a connection which has this index.
unfoldable pub Listed : (ℕ → Option ℕ) → (ℕ → ℕ) → (ℕ → ActiveLink) → ℕ → Type 0
Listed get fds links i =
    (c : ℕ) × (get (fds i) ≡ some c)
    × ((links c).in_active_set ≡ true)
    × ((links c).active_idx ≡ some i)

-- The index of a connection is that of its descriptor.
unfoldable pub Indexed : (ℕ → ℕ) → ℕ → ActiveLink → ℕ → Type 0
Indexed fds count link fd = (i : ℕ) × (link.active_idx ≡ some i) × (i < count) × (fds i ≡ fd)

unfoldable pub IsActive : (ℕ → Option ℕ) → ActiveSet → Type 0
IsActive get a =
    ((i : ℕ) → i < a.active_count → Listed get a.active_fds a.links i)
    × ((c fd : ℕ)
        → get fd ≡ some c
        → (a.links c).in_active_set ≡ true
        → Indexed a.active_fds a.active_count (a.links c) fd)
    × (a.active_count ≤ a.active_cap)

-- A connection is stored under one descriptor.
unfoldable pub OneFd : (ℕ → Option ℕ) → Type 0
OneFd get = (fd gd c : ℕ) → get fd ≡ some c → get gd ≡ some c → fd ≡ gd

pub differs : {A : Type 0} (f : ℕ → A) (x y : ℕ) → f x ≢ f y → (x == y) ≡ false
differs f x y h = elim (Bool-cases (x == y)) [
  | inl e ↦ let same : x ≡ y = ground (arith, e) in absurd (h (ap f same))
  | inr e ↦ e
]

pub true-false : true ≢ false
true-false e = ground (arith, e)

==_refl : (n : ℕ) → (n == n) ≡ true
==_refl n = ground arith

pub ==_sym : (a b : ℕ) → (a == b) ≡ false → (b == a) ≡ false
==_sym a b h = ground (arith, h)

pub some-eq : (i j : ℕ) → ◌≡◌ {A = Option ℕ} (some i) (some j) → i ≡ j
some-eq i j e = ground (arith, e)

abbrev joined : ActiveSet → ℕ → ActiveLink
joined a c = record { in_active_set = true; active_idx = some a.active_count }

module _ (get : ℕ → Option ℕ) (a : ActiveSet) (fd c cap : ℕ) (active : IsActive get a)
    (one : OneFd get) (found : get fd ≡ some c) (out : (a.links c).in_active_set ≡ false) where
  abbrev new_fds : ℕ → ℕ
  new_fds = update a.active_fds a.active_count fd

  abbrev new_links : ℕ → ActiveLink
  new_links = update a.links c (joined a c)

  append_Listed : (i : ℕ) → i < a.active_count + 1 → Listed get new_fds new_links i
  unfolding Listed IsActive
  append_Listed i h = elim (Bool-cases (i == a.active_count)) [
    | inl e ↦
        let here : i ≡ a.active_count = ground (arith, e) in
        (
          c,
          ap get (ap new_fds here ∙ update_here a.active_fds a.active_count fd) ∙ found,
          ap (λ (l : ActiveLink). l.in_active_set) (update_here a.links c (joined a c)),
          ap (λ (l : ActiveLink). l.active_idx) (update_here a.links c (joined a c))
              ∙ ap some (sym here),
        )
    | inr e ↦
        let (d, stored, inside, at) = active.0 i (ground (arith, e, h)) in
        let apart : (d == c) ≡ false =
          differs (λ x. (a.links x).in_active_set) d c (λ k. true-false (sym inside ∙ k ∙ out)) in
        let same = other_node a.links c (joined a c) d apart in
        (
          d,
          ap get (other_node a.active_fds a.active_count fd i e) ∙ stored,
          ap (λ (l : ActiveLink). l.in_active_set) same ∙ inside,
          ap (λ (l : ActiveLink). l.active_idx) same ∙ at,
        )
  ]

  append_Indexed :
      (d gd : ℕ)
      → get gd ≡ some d
      → (new_links d).in_active_set ≡ true
      → Indexed new_fds (a.active_count + 1) (new_links d) gd
  unfolding Indexed IsActive OneFd
  append_Indexed d gd stored inside = elim (Bool-cases (d == c)) [
    | inl e ↦
        let same : d ≡ c = ground (arith, e) in
        let at = ap new_links same ∙ update_here a.links c (joined a c) in
        (
          a.active_count,
          ap (λ (l : ActiveLink). l.active_idx) at,
          omega arith,
          update_here a.active_fds a.active_count fd ∙ one fd gd c found (stored ∙ ap some same),
        )
    | inr e ↦
        let same = other_node a.links c (joined a c) d e in
        let (i, at, below, here) =
          active.1 d gd stored (sym (ap (λ (l : ActiveLink). l.in_active_set) same) ∙ inside) in
        (
          i,
          ap (λ (l : ActiveLink). l.active_idx) same ∙ at,
          omega arith,
          other_node a.active_fds a.active_count fd i (ground (arith, below)) ∙ here,
        )
  ]

  append_fd-IsActive : a.active_count < cap → IsActive get (append_fd a fd c (some cap))
  unfolding IsActive
  append_fd-IsActive h = (append_Listed, append_Indexed, omega arith)

-- A capacity above the count, if there is one.
Above : ℕ → Option ℕ → Type 0
Above n none = Unit
Above n (some cap) = n < cap

grow_active-Above :
    (alloc : Bool) (a : ActiveSet)
    → a.active_count ≤ a.active_cap
    → a.active_cap < 2 ^ 63
    → Above a.active_count (grow_active alloc a)
unfolding grow_active Above
grow_active-Above alloc a h k =
    let new_cap = if a.active_cap == 0 then 1024 else a.active_cap * 2 % 2 ^ 64 in
    if_both (Above a.active_count) (a.active_count == a.active_cap)
      (λ e.
        if_both (Above a.active_count) alloc (λ f. doubled a.active_count a.active_cap e k)
          (λ f. tt))
      (λ e. ground (arith, e, h))
  where
    doubled :
        (n cap : ℕ)
        → (n == cap) ≡ true
        → cap < 2 ^ 63
        → n < (if cap == 0 then 1024 else cap * 2 % 2 ^ 64)
    doubled n cap e k =
        let same : n ≡ cap = ground (arith, e) in
        if_both (λ m. n < m) (cap == 0) (λ z. ground (arith, z, same))
          (λ z. let some_cap : cap ≢ 0 = ground (arith, z) in omega (arith, some_cap, same, k))

module _ (get : ℕ → Option ℕ) (a : ActiveSet) (fd : ℕ) (active : IsActive get a)
    (one : OneFd get) where
  grown-IsActive :
      (c : ℕ) (o : Option ℕ)
      → get fd ≡ some c
      → (a.links c).in_active_set ≡ false
      → Above a.active_count o
      → IsActive get (append_fd a fd c o)
  unfolding Above
  grown-IsActive c none found out h = active
  grown-IsActive c (some cap) found out h = append_fd-IsActive get a fd c cap active one found out h

  add_conn-IsActive :
      (alloc : Bool) (o : Option ℕ)
      → a.active_cap < 2 ^ 63
      → get fd ≡ o
      → IsActive get (add_conn alloc a fd o)
  unfolding IsActive add_conn
  add_conn-IsActive alloc none k found = active
  add_conn-IsActive alloc (some c) k found =
      if_both (IsActive get) (a.links c).in_active_set (λ e. active)
        (λ e. grown-IsActive c (grow_active alloc a) found e (grow_active-Above alloc a active.2 k))

  -- Adding keeps the set right, whether the connection is there or not, is in the set or not, and whether the array can
  -- grow or not, if each connection has one descriptor and the capacity is below 2^63.
  pub worker_active_add-IsActive :
      (alloc : Bool) → a.active_cap < 2 ^ 63 → IsActive get (worker_active_add alloc get a fd)
  unfolding worker_active_add
  worker_active_add-IsActive alloc k = add_conn-IsActive alloc (get fd) k refl
