-- ===== src/Lifecycle/Reset.antt =====
-- The reset of a connection for its next request, and the request state of a new connection
-- (`conn_reset_request` and `conn_init` of conn_lifecycle.c).
use lamseryn.Prelude.{ℕ, false, Option, none, some, List, [], ◌≡◌, refl, Bytes, subst}
use lamseryn.Tx.{Release, tx_reset}
use lamseryn.Http.{Http1, Method, other_method, default_max_body_bytes}
use lamseryn.Pipeline.{default_max_header_bytes}
use lamseryn.Http.Ids.{Mask, Features, http_headers_store_mask}
use lamseryn.Http.Fields.{Fields, before_field, no_interest, http_parser_reset_header_state}
use lamseryn.Deadline.{TimedConn, Timeouts, conn_enter_keepalive_idle, conn_clear_draining}
use lamseryn.Wheel.{Wheel, change, tw_reschedule}

-- The limits of the configuration, where they are present.
pub record Limits : Type 0 where
  pub body_bytes : Option ℕ
  pub header_bytes : Option ℕ

abbrev pub or_limit : Option ℕ → ℕ → ℕ
or_limit none default = default
or_limit (some n) default = n

unfoldable pub conn_default_max_body_bytes : Limits → ℕ
conn_default_max_body_bytes l = or_limit l.body_bytes default_max_body_bytes

unfoldable pub conn_default_max_header_bytes : Limits → ℕ
conn_default_max_header_bytes l = or_limit l.header_bytes default_max_header_bytes

-- What of a connection is about the request, besides its deadline and its output.
pub record Serving : Type 0 where
  pub fields : Fields
  pub rx_tail : Bytes
  pub noselect_streak : ℕ

-- The method 0 is DELETE.
abbrev pub method_delete : Method
method_delete = other_method 0

-- The assignments to `struct http1_state`, in the order of the source.
unfoldable pub reset_http1 : Limits → Http1 → Http1
unfolding conn_default_max_body_bytes conn_default_max_header_bytes
reset_http1 l h = record h {
  headers_done = false;
  message_done = false;
  parse_error = false;
  internal_error = false;
  header_too_big = false;
  unsupported_te = false;
  want_keepalive = false;
  cl_count = 0;
  te_count = 0;
  cl_invalid = false;
  te_chunked = false;
  te_other = false;
  expect_unsupported = false;
  cl_value = 0;
  method = method_delete;
  target_too_long = false;
  path_len = 0;
  query_off = 0;
  query_len = 0;
  path_ends_with_slash = false;
  method_not_allowed = false;
  target = none;
  target_cap = 0;
  path_dec = none;
  path_dec_cap = 0;
  path_norm = none;
  path_norm_cap = 0;
  parser_bytes = 0;
  max_header_bytes = conn_default_max_header_bytes l;
  body_remaining = 0;
  body_bytes = 0;
  max_body_bytes = conn_default_max_body_bytes l;
  body_too_big = false;
  pending_line_error = false;
}

abbrev pub no_ids : Mask
no_ids id = false

unfoldable pub reset_serving : Limits → Serving → Serving
unfolding reset_http1 http_parser_reset_header_state
reset_serving l s =
    let cleared = http_parser_reset_header_state s.fields in
    record s {
      fields = record cleared {
        h1 = reset_http1 l cleared.h1;
        header_fields_too_many = false;
        expect_count = 0;
        expect_100_continue = false;
        req_hdrs = [];
        req_hdr_cap = 0;
        req_hdr_seen_mask = no_ids;
        hdr_fields_count = 0;
      };
      rx_tail = [];
      noselect_streak = 0;
    }

-- The deadline of the connection is that of an idle one, and its output is reset.
unfoldable pub reset_timed : ℕ → ℕ → TimedConn → TimedConn × List Release
unfolding conn_enter_keepalive_idle tx_reset conn_clear_draining
reset_timed now us c =
    let idle =
      conn_enter_keepalive_idle
        (record c { headers_done = false; message_done = false; parser_bytes = 0 }) now us in
    let quiet : TimedConn = record idle { dl = record (idle.dl) { write_start_ms = 0 } } in
    let (tx, released) = tx_reset quiet.tx in
    (conn_clear_draining (record quiet { tx = tx }), released)

-- `now` and `us` are what the clocks say.
unfoldable pub conn_reset_request :
    Limits → Timeouts → Wheel → ℕ → Serving → ℕ → ℕ → Serving × (Wheel × List Release)
unfolding reset_serving reset_timed tw_reschedule
conn_reset_request l g w x s now us =
    let (timed, released) = reset_timed now us (w.nodes x).conn in
    (reset_serving l s, (tw_reschedule g (change (λ c. timed) w x) x now, released))

-- The request state that `conn_init` leaves in a block that `conn_alloc` has cleared.
unfoldable pub new_serving : Limits → Features → ℕ → Serving
unfolding conn_default_max_body_bytes conn_default_max_header_bytes
new_serving l features max_fields = record {
  fields = record {
    h1 = record {
      method = method_delete;
      target = none;
      target_cap = 0;
      target_too_long = false;
      path_len = 0;
      query_off = 0;
      query_len = 0;
      path_ends_with_slash = false;
      path_dec = none;
      path_dec_cap = 0;
      path_norm = none;
      path_norm_cap = 0;
      method_not_allowed = false;
      headers_done = false;
      message_done = false;
      parse_error = false;
      internal_error = false;
      header_too_big = false;
      unsupported_te = false;
      want_keepalive = false;
      parser_bytes = 0;
      max_header_bytes = conn_default_max_header_bytes l;
      body_remaining = 0;
      body_bytes = 0;
      max_body_bytes = conn_default_max_body_bytes l;
      body_too_big = false;
      pending_line_error = false;
      cl_count = 0;
      te_count = 0;
      cl_invalid = false;
      te_chunked = false;
      te_other = false;
      expect_unsupported = false;
      cl_value = 0;
    };
    header_fields_too_many = false;
    req_hdr_store_mask = http_headers_store_mask features;
    req_hdr_seen_mask = no_ids;
    hdr_state = before_field;
    hdr_interest = no_interest;
    hdr_name = [];
    hdr_val = [];
    hdr_val_raw = [];
    hdr_val_raw_truncated = false;
    hdr_fields_count = 0;
    hdr_fields_max = max_fields;
    req_hdrs = [];
    req_hdr_cap = 0;
    expect_count = 0;
    expect_100_continue = false;
  };
  rx_tail = [];
  noselect_streak = 0;
}

-- Whatever a request has left on a connection, the next one finds the state of a new connection with the same headers to
-- store and the same limit on their number: nothing of a request reaches the one behind it.
pub conn_reset_request-new_serving :
    (l : Limits) (g : Timeouts) (w : Wheel) (x : ℕ) (s : Serving) (now us : ℕ) (features : Features)
    → s.fields.req_hdr_store_mask ≡ http_headers_store_mask features
    → (conn_reset_request l g w x s now us).0 ≡ new_serving l features s.fields.hdr_fields_max
unfolding conn_reset_request reset_serving reset_http1 http_parser_reset_header_state new_serving
conn_reset_request-new_serving l g w x s now us features mask =
    let fresh = new_serving l features s.fields.hdr_fields_max in
    let with_mask : Mask → Serving =
      λ m. record fresh { fields = record (fresh.fields) { req_hdr_store_mask = m } } in
    subst (λ m. reset_serving l s ≡ with_mask m) mask refl
