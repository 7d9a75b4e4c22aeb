-- ===== src/Tests/Lifecycle.antt =====
-- Examples for the active set of conn_lifecycle.c.
use lamseryn.Prelude.{
  false, ◌∷◌, [], ℕ, ◌-◌, true, Option, none, some, ◌≡◌, refl, ◌==◌, if◌then◌else◌, arith,
}
use lamseryn.Lifecycle.{ActiveSet, outside, worker_active_add, worker_active_remove}
use lamseryn.Lifecycle.Active.{IsActive, OneFd, Listed, Indexed, worker_active_add-IsActive}
use lamseryn.Lifecycle.Removed.{worker_active_remove-IsActive}
use lamseryn.Http.Ids.{Features, http_headers_store_mask}
use lamseryn.Lifecycle.Reset.{
  Limits, Serving, new_serving, conn_reset_request, conn_reset_request-new_serving,
}
use lamseryn.Tests.Auth.{basic_entry}
use lamseryn.Tests.Deadline.{defaults}
use lamseryn.Tests.Wheel.{wheel}

-- The connection of a descriptor is 100 above it.
abbrev some_conn : ℕ → Option ℕ
some_conn fd = if fd == 5 then some 105 else if fd == 6 then some 106 else none

abbrev empty_set : ActiveSet
empty_set = record { active_fds = λ i. 0; active_count = 0; active_cap = 0; links = λ c. outside }

empty-IsActive : IsActive some_conn empty_set
unfolding IsActive Listed Indexed
empty-IsActive = (λ i h. absurd (omega arith), λ c fd e h. absurd (ground (arith, h)), omega arith)

some_conn-OneFd : OneFd some_conn
unfolding OneFd
some_conn-OneFd fd gd c h k = ground (arith, h, k)

worker_active_add-IsActive_example :
    IsActive some_conn (worker_active_add true some_conn empty_set 5)
worker_active_add-IsActive_example =
    worker_active_add-IsActive some_conn empty_set 5 empty-IsActive some_conn-OneFd true
      (omega arith)

abbrev two_active : ActiveSet
unfolding worker_active_add
two_active = worker_active_add true some_conn (worker_active_add true some_conn empty_set 5) 6

two-IsActive : IsActive some_conn two_active
unfolding worker_active_add
two-IsActive =
    worker_active_add-IsActive some_conn (worker_active_add true some_conn empty_set 5) 6
      worker_active_add-IsActive_example some_conn-OneFd true (omega arith)

-- The last descriptor has moved to the front.
moves_last : (worker_active_remove some_conn two_active 5).active_fds 0 ≡ 6
unfolding worker_active_add worker_active_remove
moves_last = refl

worker_active_remove-IsActive_example :
    IsActive some_conn (worker_active_remove some_conn two_active 5)
    × ((worker_active_remove some_conn two_active 5).links 105 ≡ outside)
    × ((worker_active_remove some_conn two_active 5).active_count ≡ 2 - 1)
unfolding worker_active_add
worker_active_remove-IsActive_example =
    worker_active_remove-IsActive some_conn two_active 5 105 two-IsActive refl refl

abbrev no_limits : Limits
no_limits = record { body_bytes = none; header_bytes = some 8192 }

abbrev features : Features
features = record {
  compression = true;
  range = true;
  conditional = false;
  auth = true;
  cors = false;
}

-- A request that has failed, with an Authorization header that was captured.
abbrev served : Serving
unfolding new_serving
served = record {
  fields = record ((new_serving no_limits features 100).fields) {
    h1 = record ((new_serving no_limits features 100).fields.h1) {
      te_count = 1;
      te_chunked = true;
      parse_error = true;
      body_remaining = 7;
    };
    req_hdrs = basic_entry ∷ [];
    req_hdr_seen_mask = http_headers_store_mask features;
    hdr_fields_count = 3;
  };
  rx_tail = 13 ∷ 10 ∷ [];
  noselect_streak = 2;
}

conn_reset_request-new_serving_example :
    (conn_reset_request no_limits defaults wheel 1 served 1000 1000000).0
    ≡ new_serving no_limits features 100
unfolding new_serving
conn_reset_request-new_serving_example =
    conn_reset_request-new_serving no_limits defaults wheel 1 served 1000 1000000 features refl
