-- ===== src/Store/Insert.antt =====
-- The loop of `conn_store_put` in a table that is not resized.
use lamseryn.Prelude.{
  ℕ, zero, suc, ◌+◌, ◌-◌, ◌<◌, ◌%◌, true, false, Option, none, some, ◌≡◌, refl, sym, ap, ◌∙◌, arith,
  Bool-cases, Option-cases, inl, inr, ◌==◌, if◌then◌else◌,
}
use lamseryn.Store.{
  Store, empty, tomb, live, update, is_live, first_tomb, put_from, put_in, put_result, stored,
}
use lamseryn.Store.Probe.{Trail, Trail-snoc, next-lt, is_empty, is_tomb}
use lamseryn.Store.Represent.{Represents, not_both, home-lt, place-Represents}
use lamseryn.Store.Replace.{replace-Represents}
use lamseryn.Store.Lookup.{Slot-cases, IsStored, count_pos, IsStored-Vacancy}

abbrev overwritten : Store → ℕ → ℕ → ℕ → Store
overwritten st fd c t = record {
  cap = st.cap;
  size = st.size;
  tombs = st.tombs;
  slot = update st.slot t (live fd c);
}

abbrev placed : Store → ℕ → ℕ → ℕ → ℕ → Store
placed st fd c t tombs = record {
  cap = st.cap;
  size = st.size + 1;
  tombs = tombs;
  slot = update st.slot t (live fd c);
}

-- The tombstone that the loop remembers lies on the probe.
Remembers : Store → ℕ → Option ℕ → Type 0
Remembers st home none = Unit {0}
Remembers st home (some t) =
    (f : ℕ) × (f < st.cap) × Trail st.slot st.cap f home t × (st.slot t ≡ tomb) × (t < st.cap)

no_memory : (st : Store) (home : ℕ) → Remembers st home none
unfolding Remembers
no_memory st home = tt

remember :
    (st : Store) (home i e : ℕ) (seen : Option ℕ)
    → e < st.cap
    → i < st.cap
    → Trail st.slot st.cap e home i
    → st.slot i ≡ tomb
    → Remembers st home seen
    → Remembers st home (first_tomb i seen)
unfolding Remembers
remember st home i e none near below trail dead mem = (e, near, trail, dead, below)
remember st home i e (some t) near below trail dead mem = mem

-- Where the loop stores a new key.
record Spot (st : Store) (home : ℕ) (fd c : ℕ) (r : Option Store) : Type 0 where
  far : ℕ
  at : ℕ
  tombs : ℕ
  near : far < st.cap
  trail : Trail st.slot st.cap far home at
  free : is_live (st.slot at) ≡ false
  counted : tombs + (if is_tomb (st.slot at) then 1 else 0) ≡ st.tombs
  result : r ≡ some (placed st fd c at tombs)

module _ (st : Store) (m : ℕ → Option ℕ) (r : Represents st m) (fd c : ℕ) where
  put_present :
      (fuel d i j v : ℕ) (seen : Option ℕ)
      → d < fuel
      → i < st.cap
      → Trail st.slot st.cap d i j
      → st.slot j ≡ live fd v
      → (t : ℕ) × (w : ℕ) × (t < st.cap)
        × (st.slot t ≡ live fd w)
        × (put_from fuel st fd c i seen ≡ some (overwritten st fd c t))
  unfolding put_from
  put_present zero d i j v seen h hi p at = elim h [ ]
  put_present (suc fuel) zero i j v seen h hi p at =
      let here : st.slot i ≡ live fd v = ap st.slot p ∙ at in
      let self : (fd == fd) ≡ true = ground arith in (i, v, hi, here, rw (here, self) refl)
  put_present (suc fuel) (suc d) i j v seen h hi p at = elim (Slot-cases (st.slot i)) [
    | inl e ↦ absurd (ground (arith, ap is_empty (sym e) ∙ p.0))
    | inr (inl e) ↦
        let (t, w, ht, there, later) =
          put_present fuel d ((i + 1) % st.cap) j v (first_tomb i seen) (omega arith)
            (next-lt st.cap i hi) p.1 at in
        (t, w, ht, there, rw e later)
    | inr (inr (k, u, e)) ↦ elim (Bool-cases (k == fd)) [
      | inl same ↦
          let key : k ≡ fd = ground (arith, same) in
          (i, u, hi, e ∙ ap (λ n. live n u) key, rw (e, same) refl)
      | inr other ↦
          let (t, w, ht, there, later) =
            put_present fuel d ((i + 1) % st.cap) j v seen (omega arith) (next-lt st.cap i hi) p.1
              at in
          (t, w, ht, there, rw (e, other) later)
    ]
  ]

  module _ (home : ℕ) where
    put_absent :
        (fuel d i j e : ℕ) (seen : Option ℕ)
        → d < fuel
        → e + d < st.cap
        → i < st.cap
        → Trail st.slot st.cap e home i
        → Trail st.slot st.cap d i j
        → st.slot j ≡ empty
        → Remembers st home seen
        → m fd ≡ none
        → Spot st home fd c (put_from fuel st fd c i seen)
    unfolding put_from Remembers
    put_absent zero d i j e seen h room hi q p at mem has = elim h [ ]
    put_absent (suc fuel) zero i j e none h room hi q p at mem has =
        let here : st.slot i ≡ empty = ap st.slot p ∙ at in
        record {
          far = e;
          at = i;
          tombs = st.tombs;
          near = omega arith;
          trail = q;
          free = ap is_live here;
          counted = ap (λ s. st.tombs + (if is_tomb s then 1 else 0)) here ∙ omega arith;
          result = rw here refl;
        }
    put_absent (suc fuel) zero i j e (some t) h room hi q p at (f, near, trail, dead, ht) has =
        let here : st.slot i ≡ empty = ap st.slot p ∙ at in
        let some_tomb : 0 < st.tombs =
          omega (arith, r.tomb_count, count_pos is_tomb st.slot t st.cap ht (ap is_tomb dead)) in
        let positive : (st.tombs == 0) ≡ false = ground (arith, some_tomb) in
        record {
          far = f;
          at = t;
          tombs = st.tombs - 1;
          near = near;
          trail = trail;
          free = ap is_live dead;
          counted = ap (λ s. st.tombs - 1 + (if is_tomb s then 1 else 0)) dead ∙ omega arith;
          result = rw (here, positive) refl;
        }
    put_absent (suc fuel) (suc d) i j e seen h room hi q p at mem has =
        let next = next-lt st.cap i hi in
        let onward = Trail-snoc st.slot st.cap e home i q p.0 in
        elim (Slot-cases (st.slot i)) [
          | inl stop ↦ absurd (ground (arith, ap is_empty (sym stop) ∙ p.0))
          | inr (inl dead) ↦ rw dead (
              put_absent fuel d ((i + 1) % st.cap) j (suc e) (first_tomb i seen) (omega arith)
                (omega arith) next onward p.1 at
                (remember st home i e seen (omega arith) hi q dead mem) has)
          | inr (inr (k, v, held)) ↦ elim (Bool-cases (k == fd)) [
            | inl same ↦
                let key : k ≡ fd = ground (arith, same) in
                let val = r.sound i fd v hi (held ∙ ap (λ n. live n v) key) in
                absurd (not_both (m fd) v has val)
            | inr other ↦
                rw (held, other)
                  (put_absent fuel d ((i + 1) % st.cap) j (suc e) seen (omega arith) (omega arith)
                    next onward p.1 at mem has)
          ]
        ]

-- If the table holds a map, and would have an empty slot left after one more key, then the loop ends,
-- and the table holds the map with the new value, with an empty slot.
pub put_in-IsStored :
    (st : Store) (m : ℕ → Option ℕ) (fd c : ℕ)
    → Represents st m
    → st.size + st.tombs + 1 < st.cap
    → (st' : Store) × (put_in st fd c ≡ stored st') × IsStored st' (update m fd (some c))
put_in-IsStored st m fd c r room =
    let home = home-lt fd st.cap r.wide in
    elim (Option-cases (m fd)) [
      | inl absent ↦
          let v = IsStored-Vacancy st m fd (record { holds = r; space = omega arith }) in
          let spot =
            put_absent st m r fd c (fd % st.cap) st.cap v.far (fd % st.cap) v.at 0 none v.near
              (omega (arith, v.near)) home refl v.trail v.vacant (no_memory st (fd % st.cap))
              absent in
          (
            placed st fd c spot.at spot.tombs,
            ap put_result spot.result,
            record {
              holds =
                  place-Represents st m r fd c spot.far spot.at spot.tombs absent spot.near
                    spot.trail spot.free spot.counted;
              space = omega (arith, spot.counted);
            },
          )
      | inr (old, present) ↦
          let (d, j, near, trail, at) = r.found fd old present in
          let (t, w, below, there, done) =
            put_present st m r fd c st.cap d (fd % st.cap) j old none near home trail at in
          (
            overwritten st fd c t,
            ap put_result done,
            record {
              holds =
                  replace-Represents st m r fd w t st.size st.tombs (some c) below there refl
                    (omega arith);
              space = omega arith;
            },
          )
    ]
