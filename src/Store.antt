-- ===== src/Store.antt =====
-- conn_store.c: the map from descriptors to connections of a worker, an open-addressing table with
-- tombstones. A descriptor and a pointer are numbers. The two arrays are one function of the index
-- below `cap`: FM_EMPTY is `empty`, FM_TOMB is `tomb`, and a key with its value is `live`. `cap` is a
-- power of two, so `x & mask` is `x % cap`; products of sizes of allocated tables do not reach 2^64.
pub mod Probe
pub mod Represent
pub mod Replace
pub mod Lookup
pub mod Insert
pub mod Resize
pub mod Put
pub mod Delete
use lamseryn.Prelude.{
  ℕ, zero, suc, ◌+◌, ◌-◌, ◌*◌, ◌%◌, Bool, true, false, ◌||◌, Option, none, some, ltb, leb, ◌==◌,
  if◌then◌else◌,
}

pub data Slot : Type 0 where
  empty tomb : Slot
  live : ℕ → ℕ → Slot

pub record Store : Type 0 where
  pub cap : ℕ
  pub size : ℕ
  pub tombs : ℕ
  pub slot : ℕ → Slot

abbrev pub update {ℓ} : {A : Type ℓ} → (ℕ → A) → ℕ → A → ℕ → A
update f i v = λ j. if j == i then v else f j

-- No allocation: `fd_cap` is 0.
abbrev pub no_store : Store
no_store = record { cap = 0; size = 0; tombs = 0; slot = λ i. empty }

abbrev pub fresh_store : ℕ → Store
fresh_store cap = record { cap = cap; size = 0; tombs = 0; slot = λ i. empty }

-- The loop of `conn_store_init`, on fuel.
unfoldable pub grow_cap : ℕ → ℕ → ℕ → ℕ
grow_cap zero cap hint = cap
grow_cap (suc fuel) cap hint =
    let rest = grow_cap fuel (cap * 2) hint in if ltb cap hint then rest else cap

-- `conn_store_init`; `alloc` tells whether both arrays can be allocated, `none` is the result -1.
-- From 256 on, as many doublings as the hint has units reach it.
unfoldable pub conn_store_init : Bool → ℕ → Option Store
unfolding grow_cap
conn_store_init alloc hint = if alloc then some (fresh_store (grow_cap hint 256 hint)) else none

abbrev pub is_live : Slot → Bool
is_live (live k c) = true
is_live empty = false
is_live tomb = false

-- The inner loop of `fm_resize`, on fuel: the first slot from `j` on that holds no key.
unfoldable pub first_free : ℕ → (ℕ → Slot) → ℕ → ℕ → Option ℕ
first_free zero slot cap j = none
first_free (suc fuel) slot cap j =
    let rest = first_free fuel slot cap ((j + 1) % cap) in if is_live (slot j) then rest else some j

-- One round of the outer loop.
unfoldable pub move_slot : Slot → Store → Option Store
unfolding first_free
move_slot empty st = some st
move_slot tomb st = some st
move_slot (live k c) st = elim (first_free st.cap st.slot st.cap (k % st.cap)) [
  | none ↦ none
  | some j ↦ some (record st { slot = update st.slot j (live k c); size = st.size + 1 })
]

-- The slots below `n` of the old table, in order, into the new one.
unfoldable pub move_slots : (ℕ → Slot) → ℕ → Store → Option Store
unfolding move_slot
move_slots old zero st = some st
move_slots old (suc n) st = elim (move_slots old n st) [
  | none ↦ none
  | some t ↦ move_slot (old n) t
]

-- `fm_resize`, whose arrays were allocated; `none` is a loop that does not end.
unfoldable pub fm_resize : Store → ℕ → Option Store
unfolding move_slots
fm_resize st new_cap = move_slots st.slot st.cap (fresh_store new_cap)

-- What the loop of `conn_store_get` does at a slot.
abbrev pub get_at : Slot → ℕ → Option ℕ → Option ℕ
get_at empty fd rest = none
get_at tomb fd rest = rest
get_at (live k c) fd rest = if k == fd then some c else rest

-- The loop comes back to where it started after `cap` rounds, and ends.
unfoldable pub get_from : ℕ → Store → ℕ → ℕ → Option ℕ
get_from zero st fd i = none
get_from (suc fuel) st fd i =
    let rest = get_from fuel st fd ((i + 1) % st.cap) in get_at (st.slot i) fd rest

unfoldable pub conn_store_get : Store → ℕ → Option ℕ
unfolding get_from
conn_store_get st fd = if st.cap == 0 then none else get_from st.cap st fd (fd % st.cap)

-- A new key is stored in the first tombstone met, or else in the empty slot.
abbrev pub insert_at : Store → ℕ → ℕ → ℕ → Option ℕ → Store
insert_at st fd c i none = record st { slot = update st.slot i (live fd c); size = st.size + 1 }
insert_at st fd c i (some t) = record st {
  slot = update st.slot t (live fd c);
  size = st.size + 1;
  tombs = if st.tombs == 0 then st.tombs else st.tombs - 1;
}

abbrev pub first_tomb : ℕ → Option ℕ → Option ℕ
first_tomb i none = some i
first_tomb i (some t) = some t

abbrev pub tomb_after : Slot → ℕ → Option ℕ → Option ℕ
tomb_after tomb i seen = first_tomb i seen
tomb_after empty i seen = seen
tomb_after (live k c) i seen = seen

abbrev pub put_at : Slot → Store → ℕ → ℕ → ℕ → Option ℕ → Option Store → Option Store
put_at empty st fd c i seen rest = some (insert_at st fd c i seen)
put_at tomb st fd c i seen rest = rest
put_at (live k v) st fd c i seen rest =
    if k == fd then some (record st { slot = update st.slot i (live fd c) }) else rest

-- The loop of `conn_store_put`, on fuel; `none` is a loop that does not end.
unfoldable pub put_from : ℕ → Store → ℕ → ℕ → ℕ → Option ℕ → Option Store
put_from zero st fd c i seen = none
put_from (suc fuel) st fd c i seen =
    let rest = put_from fuel st fd c ((i + 1) % st.cap) (tomb_after (st.slot i) i seen) in
    put_at (st.slot i) st fd c i seen rest

abbrev pub wants_resize : Store → Bool
wants_resize st =
    ltb (st.cap * 7) ((st.size + 1) * 10)
    || (ltb st.cap (st.tombs * 2) || leb st.cap (st.size + st.tombs + 1))

pub data PutResult : Type 0 where
  stored : Store → PutResult
  failed : PutResult
  diverged : PutResult

abbrev pub put_result : Option Store → PutResult
put_result none = diverged
put_result (some st) = stored st

abbrev pub put_in : Store → ℕ → ℕ → PutResult
put_in st fd c = put_result (put_from st.cap st fd c (fd % st.cap) none)

abbrev pub put_resized : Option Store → ℕ → ℕ → PutResult
put_resized none fd c = diverged
put_resized (some st) fd c = put_in st fd c

-- `conn_store_put`; `failed` is the result -1, after which the table is as it was.
unfoldable pub conn_store_put : Bool → Store → ℕ → ℕ → PutResult
unfolding put_from fm_resize
conn_store_put alloc st fd c =
    if st.cap == 0
    then failed
    else if wants_resize st
    then if alloc then put_resized (fm_resize st (st.cap * 2)) fd c else failed
    else put_in st fd c

abbrev pub del_at : Slot → Store → ℕ → ℕ → Option Store → Option Store
del_at empty st fd i rest = some st
del_at tomb st fd i rest = rest
del_at (live k v) st fd i rest =
    if k == fd
    then some (record st { slot = update st.slot i tomb; size = st.size - 1; tombs = st.tombs + 1 })
    else rest

unfoldable pub del_from : ℕ → Store → ℕ → ℕ → Option Store
del_from zero st fd i = none
del_from (suc fuel) st fd i =
    let rest = del_from fuel st fd ((i + 1) % st.cap) in del_at (st.slot i) st fd i rest

-- `conn_store_del`; `none` is a loop that does not end.
unfoldable pub conn_store_del : Store → ℕ → Option Store
unfolding del_from
conn_store_del st fd = if st.cap == 0 then some st else del_from st.cap st fd (fd % st.cap)
