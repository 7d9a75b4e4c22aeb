-- ===== src/Store/Lookup.antt =====
-- `conn_store_get` against the map that the table holds.
use lamseryn.Prelude.{
  ℕ, zero, suc, ◌+◌, ◌<◌, ◌%◌, Bool, true, false, Option, none, some, ◌≡◌, ◌⊎◌, refl, sym, ap, ◌∙◌,
  arith, Bool-cases, Option-cases, inl, inr, ◌==◌,
}
use lamseryn.Store.{Store, Slot, empty, tomb, live, get_from, conn_store_get}
use lamseryn.Store.Probe.{Trail, next-lt, is_empty, Vacancy, vacancy, some_empty, count}
use lamseryn.Store.Represent.{Represents, not_both, home-lt}

pub Slot-cases : (s : Slot) → (s ≡ empty) ⊎ ((s ≡ tomb) ⊎ ((k : ℕ) × (c : ℕ) × (s ≡ live k c)))
Slot-cases empty = inl refl
Slot-cases tomb = inr (inl refl)
Slot-cases (live k c) = inr (inr (k, c, refl))

-- The tables that the operations work on: they hold the map, and a slot is empty.
pub record IsStored (st : Store) (m : ℕ → Option ℕ) : Type 0 where
  pub holds : Represents st m
  pub space : st.size + st.tombs < st.cap

module _ (st : Store) (m : ℕ → Option ℕ) (r : Represents st m) (fd : ℕ) where
  get_present :
      (fuel d i j c : ℕ)
      → d < fuel
      → i < st.cap
      → Trail st.slot st.cap d i j
      → st.slot j ≡ live fd c
      → m fd ≡ some c
      → get_from fuel st fd i ≡ some c
  unfolding get_from
  get_present zero d i j c h hi p at has = elim h [ ]
  get_present (suc fuel) zero i j c h hi p at has =
      let here : st.slot i ≡ live fd c = ap st.slot p ∙ at in ground (arith, here)
  get_present (suc fuel) (suc d) i j c h hi p at has =
      let later =
        get_present fuel d ((i + 1) % st.cap) j c (omega arith) (next-lt st.cap i hi) p.1 at has in
      elim (Slot-cases (st.slot i)) [
        | inl e ↦ absurd (ground (arith, ap is_empty (sym e) ∙ p.0))
        | inr (inl e) ↦ rw e later
        | inr (inr (k, v, e)) ↦ elim (Bool-cases (k == fd)) [
          | inl same ↦
              let key : k ≡ fd = ground (arith, same) in
              let val = r.sound i fd v hi (e ∙ ap (λ n. live n v) key) in
              rw (e, same) (sym val ∙ has)
          | inr other ↦ rw (e, other) later
        ]
      ]

  get_absent : (fuel i : ℕ) → i < st.cap → m fd ≡ none → get_from fuel st fd i ≡ none
  unfolding get_from
  get_absent zero i hi has = refl
  get_absent (suc fuel) i hi has =
      let later = get_absent fuel ((i + 1) % st.cap) (next-lt st.cap i hi) has in
      elim (Slot-cases (st.slot i)) [
        | inl e ↦ rw e refl
        | inr (inl e) ↦ rw e later
        | inr (inr (k, v, e)) ↦ elim (Bool-cases (k == fd)) [
          | inl same ↦
              let key : k ≡ fd = ground (arith, same) in
              let val = r.sound i fd v hi (e ∙ ap (λ n. live n v) key) in
              absurd (not_both (m fd) v has val)
          | inr other ↦ rw (e, other) later
        ]
      ]

  -- If the table holds a map, then a lookup returns what the map has for the descriptor.
  pub conn_store_get_lem : conn_store_get st fd ≡ m fd
  unfolding conn_store_get
  conn_store_get_lem =
      let open_ : (st.cap == 0) ≡ false = ground (arith, r.wide) in
      elim (Option-cases (m fd)) [
        | inl e ↦ rw open_ (get_absent st.cap (fd % st.cap) (home-lt fd st.cap r.wide) e ∙ sym e)
        | inr (c, e) ↦
            let (d, j, near, p, at) = r.found fd c e in
            rw open_ (
              get_present st.cap d (fd % st.cap) j c near (home-lt fd st.cap r.wide) p at e ∙ sym e)
      ]

-- A slot that passes a test is counted.
pub count_pos :
    (p : Slot → Bool) (slot : ℕ → Slot) (i n : ℕ) → i < n → p (slot i) ≡ true → 0 < count p slot n
count_pos p slot i zero h e = elim h [ ]
count_pos p slot i (suc n) h e = elim (Bool-cases (i == n)) [
  | inl last ↦
      let here : i ≡ n = ground (arith, last) in
      let now : p (slot n) ≡ true = ap (λ k. p (slot k)) (sym here) ∙ e in rw now (omega arith)
  | inr before ↦ omega (arith, count_pos p slot i n (ground (arith, before)) e)
]

pub IsStored-Vacancy :
    (st : Store) (m : ℕ → Option ℕ) (fd : ℕ) → IsStored st m → Vacancy st.slot st.cap (fd % st.cap)
IsStored-Vacancy st m fd s =
    let (j, hj, vac) =
      some_empty st.slot st.cap (omega (arith, s.holds.live_count, s.holds.tomb_count, s.space)) in
    vacancy st.slot st.cap (fd % st.cap) j (home-lt fd st.cap s.holds.wide) hj vac
