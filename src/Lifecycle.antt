-- ===== src/Lifecycle.antt =====
-- The life cycle of connections (conn_lifecycle.c) in parts: the count of connections, the free list
-- of their blocks, and the set of active descriptors of a worker. A connection is a number.
pub mod Active
pub mod Leaving
pub mod Removed
pub mod Reset
use lamseryn.Prelude.{
  ℕ, zero, suc, ◌+◌, ◌-◌, ◌*◌, ◌%◌, ◌^◌, Bool, true, false, ◌&&◌, ◌||◌, not, Option, none, some,
  List, [], ◌∷◌, leb, ltb, ◌==◌, if◌then◌else◌,
}
use lamseryn.Store.{update}

-- The part of `struct worker_link` for the active set; the index -1 is `none`.
pub record ActiveLink : Type 0 where
  pub in_active_set : Bool
  pub active_idx : Option ℕ

-- The active descriptors of a worker, with the links of all connections.
pub record ActiveSet : Type 0 where
  pub active_fds : ℕ → ℕ
  pub active_count : ℕ
  pub active_cap : ℕ
  pub links : ℕ → ActiveLink

abbrev pub outside : ActiveLink
outside = record { in_active_set = false; active_idx = none }

-- The capacity once there is room for one more; `none` is a failed `realloc`.
unfoldable pub grow_active : Bool → ActiveSet → Option ℕ
grow_active alloc a =
    let new_cap = if a.active_cap == 0 then 1024 else a.active_cap * 2 % 2 ^ 64 in
    if a.active_count == a.active_cap
    then if alloc then some new_cap else none
    else some a.active_cap

abbrev pub append_fd : ActiveSet → ℕ → ℕ → Option ℕ → ActiveSet
append_fd a fd c none = a
append_fd a fd c (some cap) = record {
  active_fds = update a.active_fds a.active_count fd;
  active_count = a.active_count + 1;
  active_cap = cap;
  links = update a.links c (record { in_active_set = true; active_idx = some a.active_count });
}

abbrev pub add_conn : Bool → ActiveSet → ℕ → Option ℕ → ActiveSet
unfolding grow_active
add_conn alloc a fd none = a
add_conn alloc a fd (some c) =
    if (a.links c).in_active_set then a else append_fd a fd c (grow_active alloc a)

-- `conn_get` is the look-up of conn_store.c.
unfoldable pub worker_active_add : Bool → (ℕ → Option ℕ) → ActiveSet → ℕ → ActiveSet
unfolding grow_active
worker_active_add alloc conn_get a fd = add_conn alloc a fd (conn_get fd)

-- The first index below `n + k` from `n` on that has the descriptor.
unfoldable pub find_fd : (ℕ → ℕ) → ℕ → ℕ → ℕ → Option ℕ
find_fd fds fd n zero = none
find_fd fds fd n (suc k) =
    let later = find_fd fds fd (n + 1) k in if fds n == fd then some n else later

abbrev pub is_at : ActiveSet → ℕ → Option ℕ → Bool
is_at a fd none = false
is_at a fd (some i) = ltb i a.active_count && a.active_fds i == fd

-- The index of the link if it is right, or else a search.
unfoldable pub index_of : ActiveSet → ℕ → Option ℕ → Option ℕ
unfolding find_fd
index_of a fd idx = if is_at a fd idx then idx else find_fd a.active_fds fd 0 a.active_count

abbrev pub reindex : (ℕ → ActiveLink) → ℕ → Option ℕ → ℕ → ActiveLink
reindex links i none = links
reindex links i (some cs) = update links cs (record (links cs) { active_idx = some i })

-- The last descriptor takes the place of the one that goes.
unfoldable pub swap_out : (ℕ → Option ℕ) → ActiveSet → ℕ → Option ℕ → ActiveSet
swap_out conn_get a c none = record a { links = update a.links c outside }
swap_out conn_get a c (some i) =
    let last = a.active_count - 1 in
    let swapped_fd = a.active_fds last in
    let links = if i == last then a.links else reindex a.links i (conn_get swapped_fd) in
    record a {
      active_fds = update a.active_fds i swapped_fd;
      active_count = last;
      links = update links c outside;
    }

abbrev pub remove_conn : (ℕ → Option ℕ) → ActiveSet → ℕ → Option ℕ → ActiveSet
unfolding index_of swap_out
remove_conn conn_get a fd none = a
remove_conn conn_get a fd (some c) =
    if not (a.links c).in_active_set
    then a
    else swap_out conn_get a c (index_of a fd (a.links c).active_idx)

unfoldable pub worker_active_remove : (ℕ → Option ℕ) → ActiveSet → ℕ → ActiveSet
unfolding index_of swap_out
worker_active_remove conn_get a fd = remove_conn conn_get a fd (conn_get fd)
