-- ===== src/Store/Resize.antt =====
-- `fm_resize` keeps the map (conn_store.c).
use lamseryn.Prelude.{
  ℕ, zero, suc, ◌+◌, ◌≤◌, ◌<◌, ◌%◌, Bool, true, false, Option, none, some, ◌≡◌, refl, sym, ap, ap₂,
  subst, ◌∙◌, arith, Bool-cases, Option-cases, inl, inr, ◌==◌, if◌then◌else◌,
}
use mathlib.Core.Path.{fun_ext}
use lamseryn.Store.{
  Store, Slot, empty, tomb, live, update, is_live, first_free, move_slot, move_slots, fm_resize,
  fresh_store,
}
use lamseryn.Store.Probe.{Trail, Trail-lt, is_tomb, count}
use lamseryn.Store.Represent.{
  Represents, not_both, home-lt, place-Represents, update_self, some-inj,
}
use lamseryn.Store.Lookup.{Slot-cases, count_pos, IsStored-Vacancy}

-- The map that the slots below `n` hold.
abbrev held_by : Slot → (ℕ → Option ℕ) → ℕ → Option ℕ
held_by empty m = m
held_by tomb m = m
held_by (live k c) m = update m k (some c)

abbrev content : (ℕ → Slot) → ℕ → ℕ → Option ℕ
content slot zero = λ k. none
content slot (suc n) = held_by (slot n) (content slot n)

content_from :
    (slot : ℕ → Slot) (n k c : ℕ)
    → content slot n k ≡ some c
    → (i : ℕ) × (i < n) × (slot i ≡ live k c)
content_from slot zero k c h = ground (arith, h)
content_from slot (suc n) k c h = elim (Slot-cases (slot n)) [
  | inl e ↦
      let (i, below, at) = content_from slot n k c (sym (rw e refl) ∙ h) in (i, omega arith, at)
  | inr (inl e) ↦
      let (i, below, at) = content_from slot n k c (sym (rw e refl) ∙ h) in (i, omega arith, at)
  | inr (inr (j, v, e)) ↦ elim (Bool-cases (k == j)) [
    | inl same ↦
        let key : k ≡ j = ground (arith, same) in
        let val : v ≡ c = some-inj v c (sym (rw (e, same) refl) ∙ h) in
        (n, omega arith, e ∙ ap₂ live (sym key) val)
    | inr other ↦
        let (i, below, at) = content_from slot n k c (sym (rw (e, other) refl) ∙ h) in
        (i, omega arith, at)
  ]
]

-- A key in a slot is in the map.
same_index : (i n : ℕ) → (i == n) ≡ true → i ≡ n
same_index i n h = ground (arith, h)

content_has :
    (slot : ℕ → Slot) (n i k c : ℕ)
    → i < n
    → slot i ≡ live k c
    → (v : ℕ) × (content slot n k ≡ some v)
content_has slot zero i k c h at = elim h [ ]
content_has slot (suc n) i k c h at = elim (Bool-cases (i == n)) [
  | inl last ↦
      let here : slot n ≡ live k c = ap slot (sym (same_index i n last)) ∙ at in
      (c, rw here (update_self (content slot n) k (some c)))
  | inr before ↦
      let (v, e) = content_has slot n i k c (ground (arith, before)) at in
      elim (Slot-cases (slot n)) [
        | inl f ↦ (v, rw f e)
        | inr (inl f) ↦ (v, rw f e)
        | inr (inr (j, w, f)) ↦ elim (Bool-cases (k == j)) [
          | inl same ↦ (w, rw (f, same) refl)
          | inr other ↦ (v, rw (f, other) e)
        ]
      ]
]

-- The loop stops at a slot without a key, which the probe reaches.
free_found :
    (slot : ℕ → Slot) (cap fuel d i j : ℕ)
    → d < fuel
    → Trail slot cap d i j
    → slot j ≡ empty
    → (f : ℕ) × (t : ℕ) × (f ≤ d)
      × Trail slot cap f i t
      × (is_live (slot t) ≡ false)
      × (first_free fuel slot cap i ≡ some t)
unfolding first_free
free_found slot cap zero d i j h p at = elim h [ ]
free_found slot cap (suc fuel) zero i j h p at =
    let here : slot i ≡ empty = ap slot p ∙ at in
    (0, i, omega arith, refl, ap is_live here, rw here refl)
free_found slot cap (suc fuel) (suc d) i j h p at = elim (Bool-cases (is_live (slot i))) [
  | inr stop ↦ (0, i, omega arith, refl, stop, rw stop refl)
  | inl full ↦
      let (f, t, le, q, free, rest) =
        free_found slot cap fuel d ((i + 1) % cap) j (omega arith) p.1 at in
      (suc f, t, omega arith, (p.0, q), free, rw full rest)
]

move_done :
    (st : Store) (k c t : ℕ)
    → first_free st.cap st.slot st.cap (k % st.cap) ≡ some t
    → move_slot (live k c) st
      ≡ some (record {
        cap = st.cap;
        size = st.size + 1;
        tombs = st.tombs;
        slot = update st.slot t (live k c);
      })
unfolding move_slot
move_done st k c t e = rw (e, move_slot) refl

-- A table without tombstones takes a new key.
move_live :
    (st : Store) (m : ℕ → Option ℕ) (k c : ℕ)
    → Represents st m
    → st.tombs ≡ 0
    → st.size < st.cap
    → m k ≡ none
    → (st' : Store) × (move_slot (live k c) st ≡ some st')
      × Represents st' (update m k (some c))
      × (st'.cap ≡ st.cap)
      × (st'.size ≡ st.size + 1)
      × (st'.tombs ≡ 0)
move_live st m k c r clean room absent =
    let v = IsStored-Vacancy st m k (record { holds = r; space = omega arith }) in
    let (f, t, le, trail, free, found) =
      free_found st.slot st.cap st.cap v.far (k % st.cap) v.at v.near v.trail v.vacant in
    let below = Trail-lt st.slot st.cap f (k % st.cap) t (home-lt k st.cap r.wide) trail in
    elim (Bool-cases (is_tomb (st.slot t))) [
      | inl dead ↦
          absurd (omega (arith, r.tomb_count, count_pos is_tomb st.slot t st.cap below dead, clean))
      | inr other ↦
          let zero_tombs : st.tombs + (if is_tomb (st.slot t) then 1 else 0) ≡ st.tombs =
            rw other (omega arith) in
          (
            record {
              cap = st.cap;
              size = st.size + 1;
              tombs = st.tombs;
              slot = update st.slot t (live k c);
            },
            move_done st k c t found,
            place-Represents st m r k c f t st.tombs absent (omega (arith, v.near)) trail free
                zero_tombs,
            refl,
            refl,
            clean,
          )
    ]

-- No key stands twice in a table that holds a map.
absent_below :
    (st : Store) (m : ℕ → Option ℕ) (n k c : ℕ)
    → Represents st m
    → n < st.cap
    → st.slot n ≡ live k c
    → content st.slot n k ≡ none
absent_below st m n k c r below at = elim (Option-cases (content st.slot n k)) [
  | inl e ↦ e
  | inr (v, e) ↦
      let (i, lower, there) = content_from st.slot n k v e in
      absurd (omega (arith, r.unique i n k v c (omega arith) below there at))
]

zero_count : (p : Slot → Bool) (n : ℕ) → p empty ≡ false → count p (λ i. empty) n ≡ 0
zero_count p zero e = refl
zero_count p (suc n) e = rw e (omega (arith, zero_count p n e))

pub fresh-Represents : (cap : ℕ) → 1 < cap → Represents (fresh_store cap) (λ k. none)
fresh-Represents cap h = record {
  wide = h;
  found = λ fd c e. absurd (ground (arith, e));
  sound = λ j fd c below e. absurd (ground (arith, e));
  unique = λ i j fd c c' hi hj e f. absurd (ground (arith, e));
  live_count = zero_count is_live cap refl;
  tomb_count = zero_count is_tomb cap refl;
}

module _ (st : Store) (m : ℕ → Option ℕ) (r : Represents st m) (cap : ℕ)
    (wider : st.cap < cap) where
  moved :
      (n : ℕ)
      → n ≤ st.cap
      → (t : Store) × (move_slots st.slot n (fresh_store cap) ≡ some t)
        × Represents t (content st.slot n)
        × (t.cap ≡ cap)
        × (t.size ≤ n)
        × (t.tombs ≡ 0)
  unfolding move_slots move_slot
  moved zero h =
      (fresh_store cap, refl, fresh-Represents cap (omega (arith, r.wide)), refl, omega arith, refl)
  moved (suc n) h =
      let (t, done, holds, capped, sized, clean) = moved n (omega arith) in
      elim (Slot-cases (st.slot n)) [
        | inl e ↦ (t, rw (done, e) refl, rw e holds, capped, omega arith, clean)
        | inr (inl e) ↦ (t, rw (done, e) refl, rw e holds, capped, omega arith, clean)
        | inr (inr (k, c, e)) ↦
            let absent = absent_below st m n k c r (omega arith) e in
            let (t', more, holds', capped', sized', clean') =
              move_live t (content st.slot n) k c holds clean (omega arith) absent in
            (t', rw (done, e) more, rw e holds', capped' ∙ capped, omega arith, clean')
      ]

  content-all : content st.slot st.cap ≡ m
  content-all = fun_ext λ k. elim (Option-cases (content st.slot st.cap k)) [
    | inr (c, e) ↦
        let (i, below, at) = content_from st.slot st.cap k c e in e ∙ sym (r.sound i k c below at)
    | inl e ↦ elim (Option-cases (m k)) [
      | inl f ↦ e ∙ sym f
      | inr (c, f) ↦
          let (d, j, near, trail, at) = r.found k c f in
          let below = Trail-lt st.slot st.cap d (k % st.cap) j (home-lt k st.cap r.wide) trail in
          let (v, has) = content_has st.slot st.cap j k c below at in
          absurd (not_both (content st.slot st.cap k) v e has)
    ]
  ]

-- A resize to a larger table ends, and keeps the map.
pub fm_resize-Represents :
    (st : Store) (m : ℕ → Option ℕ) (cap : ℕ)
    → Represents st m
    → st.cap < cap
    → (t : Store) × (fm_resize st cap ≡ some t)
      × Represents t m
      × (t.cap ≡ cap)
      × (t.size ≤ st.cap)
      × (t.tombs ≡ 0)
unfolding fm_resize
fm_resize-Represents st m cap r wider =
    let (t, done, holds, capped, sized, clean) = moved st m r cap wider st.cap (omega arith) in
    (t, done, subst (Represents t) (content-all st m r cap wider) holds, capped, sized, clean)
