-- ===== src/Store/Replace.antt =====
-- A write of a slot that holds a key: a new value for it, or a tombstone (conn_store.c).
use lamseryn.Prelude.{
  ℕ, ◌+◌, ◌<◌, ◌%◌, false, Option, none, some, ◌≡◌, ◌≢◌, refl, sym, ap, subst, ◌∙◌, arith,
  Bool-cases, inl, inr, ◌==◌, if◌then◌else◌,
}
use lamseryn.Store.{Store, Slot, tomb, live, update, is_live}
use lamseryn.Store.Probe.{Trail, Trail-lt, Trail-mono, is_empty, is_tomb, count-update}
use lamseryn.Store.Represent.{Represents, live-inj, full-update, update_self, update-ne, home-lt}

-- What is stored for a key: its value, or that it is gone.
abbrev pub kept : ℕ → Option ℕ → Slot
kept fd none = tomb
kept fd (some c) = live fd c

kept_full : (fd : ℕ) (o : Option ℕ) → is_empty (kept fd o) ≡ false
kept_full fd none = refl
kept_full fd (some c) = refl

kept-live : (fd k v : ℕ) (o : Option ℕ) → kept fd o ≡ live k v → (fd ≡ k) × (o ≡ some v)
kept-live fd k v none e = ground (arith, e)
kept-live fd k v (some c) e = let (a, b) = live-inj fd k c v e in (a, ap some b)

module _ (st : Store) (m : ℕ → Option ℕ) (r : Represents st m) (fd c t size tombs : ℕ)
    (o : Option ℕ) (below : t < st.cap) (holds : st.slot t ≡ live fd c)
    (sized : size + 1 ≡ st.size + (if is_live (kept fd o) then 1 else 0))
    (counted : tombs ≡ st.tombs + (if is_tomb (kept fd o) then 1 else 0)) where
  keeps_Trail :
      (e i j : ℕ) → Trail st.slot st.cap e i j → Trail (update st.slot t (kept fd o)) st.cap e i j
  keeps_Trail e i j p =
      Trail-mono st.slot (update st.slot t (kept fd o)) st.cap e i j
        (full-update st.slot t (kept fd o) (kept_full fd o)) p

  replace_found :
      (k v : ℕ)
      → update m fd o k ≡ some v
      → (e : ℕ) × (j : ℕ) × (e < st.cap)
        × Trail (update st.slot t (kept fd o)) st.cap e (k % st.cap) j
        × (update st.slot t (kept fd o) j ≡ live k v)
  replace_found k v h = elim (Bool-cases (k == fd)) [
    | inl same ↦
        let key : k ≡ fd = ground (arith, same) in
        let val : o ≡ some v = sym (rw same refl) ∙ h in
        let (d, j, near, p, at) = r.found fd c (r.sound t fd c below holds) in
        let j_lt = Trail-lt st.slot st.cap d (fd % st.cap) j (home-lt fd st.cap r.wide) p in
        let here : j ≡ t = r.unique j t fd c c j_lt below at holds in
        (
          d,
          t,
          near,
          rw key
              (keeps_Trail d (fd % st.cap) t (subst (Trail st.slot st.cap d (fd % st.cap)) here p)),
          update_self st.slot t (kept fd o) ∙ ap (kept fd) val ∙ ap (λ n. live n v) (sym key),
        )
    | inr other ↦
        let (e, j, close, p, at) = r.found k v (sym (rw other refl) ∙ h) in
        let away : j ≢ t = λ there.
          ground (arith, other, (live-inj k fd v c (sym at ∙ ap st.slot there ∙ holds)).0) in
        (e, j, close, keeps_Trail e (k % st.cap) j p, update-ne st.slot t j (kept fd o) away ∙ at)
  ]

  replace_sound :
      (j k v : ℕ)
      → j < st.cap
      → update st.slot t (kept fd o) j ≡ live k v
      → update m fd o k ≡ some v
  replace_sound j k v hj h = elim (Bool-cases (j == t)) [
    | inl here ↦
        let (key, val) = kept-live fd k v o (sym (rw here refl) ∙ h) in
        rw (sym key) (update_self m fd o ∙ val)
    | inr other ↦
        let at : st.slot j ≡ live k v = sym (rw other refl) ∙ h in
        let differs : k ≢ fd = λ e.
          ground (arith, other, r.unique j t fd v c hj below (at ∙ ap (λ n. live n v) e) holds) in
        update-ne m fd k o differs ∙ r.sound j k v hj at
  ]

  -- A key that stands in a slot stood there before, if perhaps with another value.
  old_key :
      (j k v : ℕ) → update st.slot t (kept fd o) j ≡ live k v → (w : ℕ) × (st.slot j ≡ live k w)
  old_key j k v h = elim (Bool-cases (j == t)) [
    | inl here ↦
        let there : j ≡ t = ground (arith, here) in
        let (key, _) = kept-live fd k v o (sym (rw here refl) ∙ h) in
        (c, ap st.slot there ∙ holds ∙ ap (λ n. live n c) key)
    | inr other ↦ (v, sym (rw other refl) ∙ h)
  ]

  replace_unique :
      (i j k v v' : ℕ)
      → i < st.cap
      → j < st.cap
      → update st.slot t (kept fd o) i ≡ live k v
      → update st.slot t (kept fd o) j ≡ live k v'
      → i ≡ j
  replace_unique i j k v v' hi hj a b =
      let (w, at) = old_key i k v a in
      let (w', at') = old_key j k v' b in r.unique i j k w w' hi hj at at'

  pub replace-Represents :
      Represents
        (record { cap = st.cap; size = size; tombs = tombs; slot = update st.slot t (kept fd o) })
        (update m fd o)
  replace-Represents =
      let held : ◌≡◌ {A = ℕ} (if is_live (st.slot t) then 1 else 0) 1 = rw holds refl in
      let no_tomb : ◌≡◌ {A = ℕ} (if is_tomb (st.slot t) then 1 else 0) 0 = rw holds refl in
      record {
        wide = r.wide;
        found = replace_found;
        sound = replace_sound;
        unique = replace_unique;
        live_count = omega (
          arith,
          count-update is_live st.slot t st.cap (kept fd o) below,
          held,
          r.live_count,
          sized,
        );
        tomb_count = omega (
          arith,
          count-update is_tomb st.slot t st.cap (kept fd o) below,
          no_tomb,
          r.tomb_count,
          counted,
        );
      }
