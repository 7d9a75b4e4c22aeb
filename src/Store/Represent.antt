-- ===== src/Store/Represent.antt =====
-- What it means that the table of conn_store.c holds a finite map, and that a write of one slot
-- changes the map at one key.
use lamseryn.Prelude.{
  ℕ, ◌+◌, ◌<◌, ◌%◌, true, false, Option, none, some, ◌≡◌, ◌≢◌, refl, sym, ap, ap₂, ◌∙◌, arith,
  Bool-cases, inl, inr, ◌==◌, if◌then◌else◌,
}
use lamseryn.Store.{Store, Slot, live, update, is_live}
use lamseryn.Store.Probe.{Trail, Trail-lt, Trail-mono, is_empty, is_tomb, count, count-update}

-- Every key of the map is found on its probe, every live slot tells what the map says, no key stands
-- twice, and the counters are right.
pub record Represents (st : Store) (m : ℕ → Option ℕ) : Type 0 where
  pub wide : 1 < st.cap
  pub found :
      (fd c : ℕ)
      → m fd ≡ some c
      → (d : ℕ) × (j : ℕ) × (d < st.cap)
        × Trail st.slot st.cap d (fd % st.cap) j
        × (st.slot j ≡ live fd c)
  pub sound : (j fd c : ℕ) → j < st.cap → st.slot j ≡ live fd c → m fd ≡ some c
  pub unique :
      (i j fd c c' : ℕ)
      → i < st.cap
      → j < st.cap
      → st.slot i ≡ live fd c
      → st.slot j ≡ live fd c'
      → i ≡ j
  pub live_count : count is_live st.slot st.cap ≡ st.size
  pub tomb_count : count is_tomb st.slot st.cap ≡ st.tombs

pub home-lt : (fd cap : ℕ) → 1 < cap → fd % cap < cap
home-lt fd cap h = grind arith

pub live-inj : (fd fd' c c' : ℕ) → live fd c ≡ live fd' c' → (fd ≡ fd') × (c ≡ c')
live-inj fd fd' c c' e = ((cc), (cc))

not_live : (s : Slot) (fd c : ℕ) → is_live s ≡ false → s ≡ live fd c → ⊥
not_live s fd c e f = ground (arith, e, f)

eq_refl : (i : ℕ) → (i == i) ≡ true
eq_refl i = ground arith

ne-test : (i j : ℕ) → i ≢ j → (i == j) ≡ false
ne-test i j h = ground arith

pub update_self {ℓ} : {A : Type ℓ} (f : ℕ → A) (i : ℕ) (v : A) → update f i v i ≡ v
update_self f i v = rw (eq_refl i) refl

pub update-ne {ℓ} : {A : Type ℓ} (f : ℕ → A) (i j : ℕ) (v : A) → j ≢ i → update f i v j ≡ f j
update-ne f i j v h = rw (ne-test j i h) refl

-- A write that leaves a full slot full keeps every trail.
pub full-update :
    (slot : ℕ → Slot) (t : ℕ) (v : Slot)
    → is_empty v ≡ false
    → (k : ℕ) → is_empty (slot k) ≡ false
    → is_empty (update slot t v k) ≡ false
full-update slot t v full k h = elim (Bool-cases (k == t)) [
  | inl here ↦ rw here full
  | inr other ↦ rw other h
]

pub not_both : (o : Option ℕ) (v : ℕ) → o ≡ none → o ≡ some v → ⊥
not_both o v e f = ground (arith, e, f)

pub some-inj : (a b : ℕ) → some a ≡ some b → a ≡ b
some-inj a b e = cc

-- A new key on its probe, in a slot that holds no key.
module _ (st : Store) (m : ℕ → Option ℕ) (r : Represents st m) (fd c d t tombs : ℕ)
    (absent : m fd ≡ none) (near : d < st.cap) (trail : Trail st.slot st.cap d (fd % st.cap) t)
    (free : is_live (st.slot t) ≡ false)
    (counted : tombs + (if is_tomb (st.slot t) then 1 else 0) ≡ st.tombs) where
  t-lt : t < st.cap
  t-lt = Trail-lt st.slot st.cap d (fd % st.cap) t (home-lt fd st.cap r.wide) trail

  keeps_Trail :
      (e i j : ℕ) → Trail st.slot st.cap e i j → Trail (update st.slot t (live fd c)) st.cap e i j
  keeps_Trail e i j p =
      Trail-mono st.slot (update st.slot t (live fd c)) st.cap e i j
        (full-update st.slot t (live fd c) refl) p

  not_here : (j k v : ℕ) → st.slot j ≡ live k v → j ≢ t
  not_here j k v at e = not_live (st.slot t) k v free (ap st.slot (sym e) ∙ at)

  count_free :
      count is_live (update st.slot t (live fd c)) st.cap ≡ count is_live st.slot st.cap + 1
  count_free =
      let e = count-update is_live st.slot t st.cap (live fd c) t-lt in
      let e' : ◌≡◌ {A = ℕ} (if is_live (st.slot t) then 1 else 0) 0 = rw free refl in
      omega (arith, e, e')

  place_found :
      (k v : ℕ)
      → update m fd (some c) k ≡ some v
      → (e : ℕ) × (j : ℕ) × (e < st.cap)
        × Trail (update st.slot t (live fd c)) st.cap e (k % st.cap) j
        × (update st.slot t (live fd c) j ≡ live k v)
  place_found k v h = elim (Bool-cases (k == fd)) [
    | inl new ↦
        let key : k ≡ fd = ground (arith, new) in
        let val : c ≡ v = some-inj c v (sym (rw new refl) ∙ h) in
        (
          d,
          t,
          near,
          rw key (keeps_Trail d (fd % st.cap) t trail),
          update_self st.slot t (live fd c) ∙ ap₂ live (sym key) val,
        )
    | inr old ↦
        let (e, j, close, p, at) = r.found k v (sym (rw old refl) ∙ h) in
        (
          e,
          j,
          close,
          keeps_Trail e (k % st.cap) j p,
          update-ne st.slot t j (live fd c) (not_here j k v at) ∙ at,
        )
  ]

  place_sound :
      (j k v : ℕ)
      → j < st.cap
      → update st.slot t (live fd c) j ≡ live k v
      → update m fd (some c) k ≡ some v
  place_sound j k v below h = elim (Bool-cases (j == t)) [
    | inl here ↦
        let (key, val) = live-inj fd k c v (sym (rw here refl) ∙ h) in
        rw (sym key) (update_self m fd (some c) ∙ ap some val)
    | inr other ↦
        let held = r.sound j k v below (sym (rw other refl) ∙ h) in
        update-ne m fd k (some c) (λ e. not_both (m fd) v absent (sym (ap m e) ∙ held)) ∙ held
  ]

  place_unique :
      (i j k v v' : ℕ)
      → i < st.cap
      → j < st.cap
      → update st.slot t (live fd c) i ≡ live k v
      → update st.slot t (live fd c) j ≡ live k v'
      → i ≡ j
  place_unique i j k v v' hi hj a b = elim (Bool-cases (i == t)) [
    | inl here ↦
        let key = (live-inj fd k c v (sym (rw here refl) ∙ a)).0 in
        elim (Bool-cases (j == t)) [
          | inl there ↦ ground (arith, here, there)
          | inr other ↦
              let held = r.sound j k v' hj (sym (rw other refl) ∙ b) in
              absurd (not_both (m fd) v' absent (ap m key ∙ held))
        ]
    | inr away ↦
        let at_i : st.slot i ≡ live k v = sym (rw away refl) ∙ a in
        elim (Bool-cases (j == t)) [
          | inl there ↦
              let key = (live-inj fd k c v' (sym (rw there refl) ∙ b)).0 in
              absurd (not_both (m fd) v absent (ap m key ∙ r.sound i k v hi at_i))
          | inr other ↦ r.unique i j k v v' hi hj at_i (sym (rw other refl) ∙ b)
        ]
  ]

  pub place-Represents :
      Represents
        (record {
          cap = st.cap;
          size = st.size + 1;
          tombs = tombs;
          slot = update st.slot t (live fd c);
        })
        (update m fd (some c))
  place-Represents = record {
    wide = r.wide;
    found = place_found;
    sound = place_sound;
    unique = place_unique;
    live_count = omega (arith, count_free, r.live_count);
    tomb_count =
        omega
          (arith, count-update is_tomb st.slot t st.cap (live fd c) t-lt, r.tomb_count, counted);
  }
