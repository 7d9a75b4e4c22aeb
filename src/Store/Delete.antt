-- ===== src/Store/Delete.antt =====
-- `conn_store_del` against the map that the table holds.
use lamseryn.Prelude.{
  ℕ, zero, suc, ◌+◌, ◌-◌, ◌<◌, ◌%◌, true, false, Option, none, some, ◌≡◌, refl, sym, ap, subst, ◌∙◌,
  arith, Bool-cases, Option-cases, inl, inr, ◌==◌,
}
use mathlib.Core.Path.{fun_ext}
use lamseryn.Store.{Store, empty, tomb, live, update, is_live, del_from, conn_store_del}
use lamseryn.Store.Probe.{Trail, next-lt, is_empty}
use lamseryn.Store.Represent.{Represents, not_both, home-lt}
use lamseryn.Store.Replace.{replace-Represents}
use lamseryn.Store.Lookup.{IsStored, Slot-cases, count_pos, IsStored-Vacancy}

module _ (st : Store) (m : ℕ → Option ℕ) (r : Represents st m) (fd : ℕ) where
  -- A deletion of a key that is there, and of one that is not.
  del_present :
      (fuel d i j c : ℕ)
      → d < fuel
      → i < st.cap
      → Trail st.slot st.cap d i j
      → st.slot j ≡ live fd c
      → (t : ℕ) × (v : ℕ) × (t < st.cap)
        × (st.slot t ≡ live fd v)
        × (del_from fuel st fd i
            ≡ some (record {
              cap = st.cap;
              size = st.size - 1;
              tombs = st.tombs + 1;
              slot = update st.slot t tomb;
            }))
  unfolding del_from
  del_present zero d i j c h hi p at = elim h [ ]
  del_present (suc fuel) zero i j c h hi p at =
      let here : st.slot i ≡ live fd c = ap st.slot p ∙ at in
      let self : (fd == fd) ≡ true = ground arith in (i, c, hi, here, rw (here, self) refl)
  del_present (suc fuel) (suc d) i j c h hi p at =
      let (t, w, ht, there, later) =
        del_present fuel d ((i + 1) % st.cap) j c (omega arith) (next-lt st.cap i hi) p.1 at in
      elim (Slot-cases (st.slot i)) [
        | inl e ↦ absurd (ground (arith, ap is_empty (sym e) ∙ p.0))
        | inr (inl e) ↦ (t, w, ht, there, rw e later)
        | inr (inr (k, v, e)) ↦ elim (Bool-cases (k == fd)) [
          | inl same ↦
              let key : k ≡ fd = ground (arith, same) in
              (i, v, hi, e ∙ ap (λ n. live n v) key, rw (e, same) refl)
          | inr other ↦ (t, w, ht, there, rw (e, other) later)
        ]
      ]

  del_absent :
      (fuel d i j : ℕ)
      → d < fuel
      → i < st.cap
      → Trail st.slot st.cap d i j
      → st.slot j ≡ empty
      → m fd ≡ none
      → del_from fuel st fd i ≡ some st
  unfolding del_from
  del_absent zero d i j h hi p at has = elim h [ ]
  del_absent (suc fuel) zero i j h hi p at has =
      let here : st.slot i ≡ empty = ap st.slot p ∙ at in rw here refl
  del_absent (suc fuel) (suc d) i j h hi p at has =
      let later =
        del_absent fuel d ((i + 1) % st.cap) j (omega arith) (next-lt st.cap i hi) p.1 at has in
      elim (Slot-cases (st.slot i)) [
        | inl e ↦ rw e refl
        | inr (inl e) ↦ rw e later
        | inr (inr (k, v, e)) ↦ elim (Bool-cases (k == fd)) [
          | inl same ↦
              let key : k ≡ fd = ground (arith, same) in
              let val = r.sound i fd v hi (e ∙ ap (λ n. live n v) key) in
              absurd (not_both (m fd) v has val)
          | inr other ↦ rw (e, other) later
        ]
      ]

update-none : (m : ℕ → Option ℕ) (fd : ℕ) → m fd ≡ none → update m fd none ≡ m
update-none m fd e = fun_ext λ k. elim (Bool-cases (k == fd)) [
  | inl here ↦ rw here (sym e ∙ ap m (ground (arith, here)))
  | inr other ↦ rw other refl
]

-- If the table holds a map and has an empty slot, then a deletion ends, and leaves a table that
-- holds the map without the descriptor, again with an empty slot.
pub conn_store_del-IsStored :
    (st : Store) (m : ℕ → Option ℕ) (fd : ℕ)
    → IsStored st m
    → (st' : Store) × (conn_store_del st fd ≡ some st') × IsStored st' (update m fd none)
unfolding conn_store_del
conn_store_del-IsStored st m fd s =
    let r = s.holds in
    let in_use : (st.cap == 0) ≡ false = ground (arith, r.wide) in
    let home = home-lt fd st.cap r.wide in
    elim (Option-cases (m fd)) [
      | inl absent ↦
          let v = IsStored-Vacancy st m fd s in
          let done =
            del_absent st m r fd st.cap v.far (fd % st.cap) v.at v.near home v.trail v.vacant
              absent in
          (st, rw in_use done, subst (IsStored st) (sym (update-none m fd absent)) s)
      | inr (c, present) ↦
          let (d, j, near, trail, at) = r.found fd c present in
          let (t, v, below, there, done) =
            del_present st m r fd st.cap d (fd % st.cap) j c near home trail at in
          let some_live : 0 < st.size =
            omega (arith, r.live_count, count_pos is_live st.slot t st.cap below (rw there refl)) in
          (
            record {
              cap = st.cap;
              size = st.size - 1;
              tombs = st.tombs + 1;
              slot = update st.slot t tomb;
            },
            rw in_use done,
            record {
              holds =
                  replace-Represents st m r fd v t (st.size - 1) (st.tombs + 1) none below there
                    (omega arith) refl;
              space = omega (arith, s.space);
            },
          )
    ]
