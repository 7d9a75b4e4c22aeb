-- ===== src/Tests/Store.antt =====
-- Examples for conn_store.c.
use lamseryn.Prelude.{ℕ, true, Option, none, some, ◌≡◌, refl}
use lamseryn.Store.{
  Store, update, fresh_store, conn_store_init, conn_store_get, conn_store_put, conn_store_del,
  stored, insert_at,
}
use lamseryn.Store.Lookup.{IsStored, conn_store_get_lem}
use lamseryn.Store.Put.{Stored, conn_store_put-Stored, conn_store_init-IsStored}
use lamseryn.Store.Delete.{conn_store_del-IsStored}

abbrev no_conns : ℕ → Option ℕ
no_conns fd = none

made : IsStored (fresh_store 256) no_conns
unfolding conn_store_init
made = conn_store_init-IsStored true 0 (fresh_store 256) refl

conn_store_put-Stored_example :
    Stored true
      (fresh_store 256)
      (update no_conns 7 (some 70))
      (conn_store_put true (fresh_store 256) 7 70)
conn_store_put-Stored_example = conn_store_put-Stored true (fresh_store 256) no_conns 7 70 made

-- The table that holds one connection.
abbrev one_conn : ℕ → Option ℕ
one_conn = update no_conns 7 (some 70)

abbrev with_one : Store
with_one = insert_at (fresh_store 256) 7 70 7 none

with_one-IsStored : IsStored with_one one_conn
unfolding conn_store_put
with_one-IsStored = conn_store_put-Stored true (fresh_store 256) no_conns 7 70 made

conn_store_del-IsStored_example :
    (st' : Store) × (conn_store_del with_one 7 ≡ some st') × IsStored st' (update one_conn 7 none)
conn_store_del-IsStored_example = conn_store_del-IsStored with_one one_conn 7 with_one-IsStored

conn_store_get_lem_example : conn_store_get with_one 7 ≡ some 70
conn_store_get_lem_example = conn_store_get_lem with_one one_conn with_one-IsStored.holds 7

-- A key, one that shares its home slot, and the first removed: the second is still found.
after_three : Option ℕ
after_three = elim (conn_store_put true (fresh_store 256) 7 70) [
  | stored a ↦ elim (conn_store_put true a 263 71) [
    | stored b ↦ elim (conn_store_del b 7) [ some c ↦ conn_store_get c 263 | none ↦ none ]
    | other ↦ none
  ]
  | other ↦ none
]

past_a_tombstone : after_three ≡ some 71
unfolding after_three conn_store_put conn_store_del conn_store_get
past_a_tombstone = refl
