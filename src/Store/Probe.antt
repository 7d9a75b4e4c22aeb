-- ===== src/Store/Probe.antt =====
-- The probe sequence of conn_store.c: from a slot to the next, around the table.
use lamseryn.Prelude.{
  ℕ, zero, suc, ◌+◌, ◌-◌, ◌≤◌, ◌<◌, ◌%◌, Bool, true, false, ◌≡◌, refl, sym, ap, subst, ◌∙◌, arith,
  Bool-cases, inl, inr, ltb, leb, ◌==◌, if◌then◌else◌, tests,
}
use native.Mathlib.Nat.{mod-eq_of_lt}
use lamseryn.Store.{Slot, empty, tomb, live, update, is_live}

abbrev pub is_empty : Slot → Bool
is_empty empty = true
is_empty tomb = false
is_empty (live k c) = false

-- `d` steps lead from slot `i` to slot `j`, and no slot before `j` is empty.
abbrev pub Trail : (ℕ → Slot) → ℕ → ℕ → ℕ → ℕ → Type 0
Trail slot cap zero i j = i ≡ j
Trail slot cap (suc d) i j = (is_empty (slot i) ≡ false) × Trail slot cap d ((i + 1) % cap) j

pub next-lt : (cap i : ℕ) → i < cap → (i + 1) % cap < cap
next-lt cap i h = grind arith

pub Trail-lt : (slot : ℕ → Slot) (cap d i j : ℕ) → i < cap → Trail slot cap d i j → j < cap
Trail-lt slot cap zero i j h p = omega (arith, p)
Trail-lt slot cap (suc d) i j h p = Trail-lt slot cap d ((i + 1) % cap) j (next-lt cap i h) p.1

pub Trail-snoc :
    (slot : ℕ → Slot) (cap d i j : ℕ)
    → Trail slot cap d i j
    → is_empty (slot j) ≡ false
    → Trail slot cap (suc d) i ((j + 1) % cap)
Trail-snoc slot cap zero i j p full =
    (subst (λ k. is_empty (slot k) ≡ false) (sym p) full, ap (λ k. (k + 1) % cap) p)
Trail-snoc slot cap (suc d) i j p full = (p.0, Trail-snoc slot cap d ((i + 1) % cap) j p.1 full)

pub Trail-mono :
    (slot slot' : ℕ → Slot) (cap d i j : ℕ)
    → ((k : ℕ) → is_empty (slot k) ≡ false → is_empty (slot' k) ≡ false)
    → Trail slot cap d i j
    → Trail slot' cap d i j
Trail-mono slot slot' cap zero i j keep p = p
Trail-mono slot slot' cap (suc d) i j keep p =
    (keep i p.0, Trail-mono slot slot' cap d ((i + 1) % cap) j keep p.1)

-- How many steps lead from slot `i` to slot `j`.
abbrev dist : ℕ → ℕ → ℕ → ℕ
dist cap i j = if leb i j then j - i else cap - i + j

self_mod : (cap : ℕ) → cap % cap ≡ 0
self_mod cap = grind arith

next-dist :
    (cap i j n : ℕ) → i < cap → j < cap → dist cap i j ≡ suc n → dist cap ((i + 1) % cap) j ≡ n
next-dist cap i j n hi hj e = elim (Bool-cases (ltb (i + 1) cap)) [
  | inl inside ↦
      let next : (i + 1) % cap ≡ i + 1 = mod-eq_of_lt (omega (tests, inside)) in
      rw next (ground (arith, e, inside))
  | inr last ↦
      let end : i + 1 ≡ cap = ground (arith, last) in
      let next : (i + 1) % cap ≡ 0 = rw end (self_mod cap) in rw next (ground (arith, e, end))
]

pub dist-lt : (cap i j : ℕ) → i < cap → j < cap → dist cap i j < cap
dist-lt cap i j hi hj = ground arith

-- An empty slot that the probe from `i` meets, fewer than `cap` steps away, and no earlier one.
pub record Vacancy (slot : ℕ → Slot) (cap i : ℕ) : Type 0 where
  pub far : ℕ
  pub at : ℕ
  pub near : far < cap
  pub trail : Trail slot cap far i at
  pub vacant : slot at ≡ empty

is_empty-eq : (s : Slot) → is_empty s ≡ true → s ≡ empty
is_empty-eq empty e = refl
is_empty-eq tomb e = cc
is_empty-eq (live k c) e = cc

first_vacancy :
    (n : ℕ) (slot : ℕ → Slot) (cap i j bound : ℕ)
    → dist cap i j ≡ n
    → n < bound
    → i < cap
    → j < cap
    → slot j ≡ empty
    → (d : ℕ) × (t : ℕ) × (d < bound) × Trail slot cap d i t × (slot t ≡ empty)
first_vacancy zero slot cap i j bound e small hi hj vac =
    let here : i ≡ j = ground (arith, e) in (0, i, small, refl, ap slot here ∙ vac)
first_vacancy (suc n) slot cap i j bound e small hi hj vac = elim (Bool-cases (is_empty (slot i))) [
  | inl stop ↦ (0, i, omega arith, refl, is_empty-eq (slot i) stop)
  | inr full ↦
      let (d, t, near, trail, vacant) =
        first_vacancy n slot cap ((i + 1) % cap) j (bound - 1) (next-dist cap i j n hi hj e)
          (omega arith) (next-lt cap i hi) hj vac in
      (suc d, t, omega arith, (full, trail), vacant)
]

-- Where some slot is empty, every probe meets an empty one.
pub vacancy :
    (slot : ℕ → Slot) (cap i j : ℕ) → i < cap → j < cap → slot j ≡ empty → Vacancy slot cap i
vacancy slot cap i j hi hj vac =
    let (d, t, near, trail, vacant) =
      first_vacancy (dist cap i j) slot cap i j cap refl (dist-lt cap i j hi hj) hi hj vac in
    record { far = d; at = t; near = near; trail = trail; vacant = vacant }

-- How many of the slots below `n` pass a test.
abbrev pub count : (Slot → Bool) → (ℕ → Slot) → ℕ → ℕ
count p slot zero = 0
count p slot (suc n) = (if p (slot n) then 1 else 0) + count p slot n

abbrev pub is_tomb : Slot → Bool
is_tomb tomb = true
is_tomb empty = false
is_tomb (live k c) = false

count-update_above :
    (p : Slot → Bool) (slot : ℕ → Slot) (i n : ℕ) (v : Slot)
    → n ≤ i
    → count p (update slot i v) n ≡ count p slot n
count-update_above p slot i zero v h = refl
count-update_above p slot i (suc n) v h =
    ground (arith, count-update_above p slot i n v (omega arith))

-- A write changes the count by what it replaces and what it stores.
pub count-update :
    (p : Slot → Bool) (slot : ℕ → Slot) (i n : ℕ) (v : Slot)
    → i < n
    → count p (update slot i v) n + (if p (slot i) then 1 else 0)
      ≡ count p slot n + (if p v then 1 else 0)
count-update p slot i zero v h = elim h [ ]
count-update p slot i (suc n) v h = elim (Bool-cases (n == i)) [
  | inl here ↦
      let same : n ≡ i = ground (arith, here) in
      rw (here, count-update_above p slot i n v (omega (arith, same)), same) (omega arith)
  | inr other ↦ rw other (omega (arith, count-update p slot i n v (ground (arith, other))))
]

fewer :
    (s : Slot) (a b n : ℕ)
    → is_empty s ≡ false
    → (if is_live s then 1 else 0) + a + ((if is_tomb s then 1 else 0) + b) < suc n
    → a + b < n
fewer empty a b n e h = cc
fewer tomb a b n e h = omega arith
fewer (live k c) a b n e h = omega arith

-- If the live slots and the tombstones do not fill the table, then some slot is empty.
pub some_empty :
    (slot : ℕ → Slot) (n : ℕ)
    → count is_live slot n + count is_tomb slot n < n
    → (j : ℕ) × (j < n) × (slot j ≡ empty)
some_empty slot zero h = elim h [ ]
some_empty slot (suc n) h = elim (Bool-cases (is_empty (slot n))) [
  | inl stop ↦ (n, omega arith, is_empty-eq (slot n) stop)
  | inr full ↦
      let (j, below, vac) =
        some_empty slot n (fewer (slot n) (count is_live slot n) (count is_tomb slot n) n full h) in
      (j, omega arith, vac)
]
