-- ===== src/Tests/Http.antt =====
-- Examples for http_parser.c: a request that is read up to the end of its headers.
use lamseryn.Prelude.{true, false, none, some, refl, codes}
use lamseryn.Url.{split_path_query, percent_decode_strict}
use lamseryn.Url.Normalize.{path_normalize_absolute}
use lamseryn.Http.{Http1, Env, get, complete_headers}
use lamseryn.Http.Served.{IsServed, HasPath, HasBody, served-HasPath, served-HasBody}

-- `GET /a/../b%20c?q HTTP/1.1` with `Content-Length: 5`.
abbrev pub request : Http1
request = record {
  method = get;
  target = some (codes "/a/../b%20c?q");
  target_cap = 64;
  target_too_long = false;
  path_len = 0;
  query_off = 0;
  query_len = 0;
  path_ends_with_slash = false;
  path_dec = none;
  path_dec_cap = 0;
  path_norm = none;
  path_norm_cap = 0;
  method_not_allowed = false;
  headers_done = true;
  message_done = false;
  parse_error = false;
  internal_error = false;
  header_too_big = false;
  unsupported_te = false;
  want_keepalive = true;
  parser_bytes = 60;
  max_header_bytes = 0;
  body_remaining = 0;
  body_bytes = 0;
  max_body_bytes = 0;
  body_too_big = false;
  pending_line_error = false;
  cl_count = 1;
  te_count = 0;
  cl_invalid = false;
  te_chunked = false;
  te_other = false;
  expect_unsupported = false;
  cl_value = 5;
}

-- Memory is there, and the route limits the body to 100 bytes.
abbrev pub small_route : Env
small_route = record { dec_alloc = true; norm_alloc = true; route_max_body = some 100 }

request-IsServed : IsServed (complete_headers small_route request)
unfolding complete_headers split_path_query percent_decode_strict path_normalize_absolute
request-IsServed = ((refl, refl), refl, refl)

served-HasPath_example : HasPath request (complete_headers small_route request)
served-HasPath_example = served-HasPath small_route request request-IsServed

served-HasBody_example : HasBody 100 request (complete_headers small_route request)
served-HasBody_example = served-HasBody small_route request request-IsServed
