-- ===== src/Store/Put.antt =====
-- `conn_store_init` and `conn_store_put` as a whole (conn_store.c).
use lamseryn.Prelude.{
  ℕ, zero, suc, ◌+◌, ◌*◌, ◌≤◌, ◌<◌, Bool, true, false, Option, none, some, ◌≡◌, refl, subst, arith,
  Bool-cases, inl, inr, ◌==◌,
}
use lamseryn.Store.{
  Store, update, fresh_store, PutResult, stored, failed, diverged, wants_resize, conn_store_put,
}
use lamseryn.Store.Lookup.{IsStored}
use lamseryn.Store.Insert.{put_in-IsStored}
use lamseryn.Store.{grow_cap, conn_store_init}
use lamseryn.Store.Resize.{fm_resize-Represents, fresh-Represents}

-- What an insertion leaves: the table with the new value, or, where a larger table was needed and
-- could not be allocated, a failure.
abbrev pub Stored : Bool → Store → (ℕ → Option ℕ) → PutResult → Type 0
Stored alloc st m (stored st') = IsStored st' m
Stored alloc st m failed = (alloc ≡ false) × (wants_resize st ≡ true)
Stored alloc st m diverged = ⊥

stored_is :
    (alloc : Bool) (st st' : Store) (m : ℕ → Option ℕ) (res : PutResult)
    → res ≡ stored st'
    → IsStored st' m
    → Stored alloc st m res
stored_is alloc st st' m res e h = rw e h

no_resize : (st : Store) → wants_resize st ≡ false → st.size + st.tombs + 1 < st.cap
no_resize st h = ground arith

-- If the table holds a map and has an empty slot, then an insertion ends; afterwards the table holds
-- the map with the new value, again with an empty slot. It fails only where a larger table is wanted
-- and cannot be allocated.
pub conn_store_put-Stored :
    (alloc : Bool) (st : Store) (m : ℕ → Option ℕ) (fd c : ℕ)
    → IsStored st m
    → Stored alloc st (update m fd (some c)) (conn_store_put alloc st fd c)
unfolding conn_store_put
conn_store_put-Stored alloc st m fd c s =
    let r = s.holds in
    let in_use : (st.cap == 0) ≡ false = ground (arith, r.wide) in
    let m' = update m fd (some c) in
    elim (Bool-cases (wants_resize st)) [
      | inr fine ↦
          let (st', done, after) = put_in-IsStored st m fd c r (no_resize st fine) in
          stored_is alloc st st' m' _ (rw (in_use, fine) done) after
      | inl full ↦ elim (Bool-cases alloc) [
        | inr none_left ↦ rw (in_use, full, none_left) (refl, full)
        | inl room ↦
            let (t, grown, holds, capped, sized, clean) =
              fm_resize-Represents st m (st.cap * 2) r (omega (arith, r.wide)) in
            let (st', done, after) = put_in-IsStored t m fd c holds (omega (arith, r.wide)) in
            stored_is alloc st st' m' _ (rw (in_use, full, room, grown) done) after
      ]
    ]

some_inj : (a b : Store) → some a ≡ some b → a ≡ b
some_inj a b e = cc

grow_cap-le : (fuel cap hint : ℕ) → cap ≤ grow_cap fuel cap hint
unfolding grow_cap
grow_cap-le zero cap hint = omega arith
grow_cap-le (suc fuel) cap hint = ground (arith, grow_cap-le fuel (cap * 2) hint)

-- A table that was just made holds no key, and has an empty slot.
pub conn_store_init-IsStored :
    (alloc : Bool) (hint : ℕ) (st : Store)
    → conn_store_init alloc hint ≡ some st
    → IsStored st (λ k. none)
unfolding conn_store_init
conn_store_init-IsStored false hint st e = ground (arith, e)
conn_store_init-IsStored true hint st e =
    let wide : 256 ≤ grow_cap hint 256 hint = grow_cap-le hint 256 hint in
    subst (λ s. IsStored s (λ k. none)) (some_inj (fresh_store (grow_cap hint 256 hint)) st e)
      (record {
        holds = fresh-Represents (grow_cap hint 256 hint) (omega arith);
        space = omega arith;
      })

-- The capacity reaches the hint within the fuel.
grow_cap-hint : (fuel cap hint : ℕ) → 0 < cap → hint ≤ cap + fuel → hint ≤ grow_cap fuel cap hint
unfolding grow_cap
grow_cap-hint zero cap hint pos h = omega arith
grow_cap-hint (suc fuel) cap hint pos h =
    ground (arith, grow_cap-hint fuel (cap * 2) hint (omega arith) (omega arith))
