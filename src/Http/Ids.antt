-- ===== src/Http/Ids.antt =====
-- http_headers.c: the request headers that are captured, and their look-up.
use lamseryn.Prelude.{
  ℕ, Bool, true, Option, none, some, List, [], ◌∷◌, Bytes, codes, ◌==◌, if◌then◌else◌, length,
}
use lamseryn.Http.Tokens.{same}

-- `enum http_header_id`
pub data HeaderId : Type 0 where
  id_host id_connection id_accept_encoding id_range id_if_range : HeaderId
  id_if_modified_since id_if_none_match id_authorization id_cookie id_origin : HeaderId
  id_access_control_request_method id_access_control_request_headers : HeaderId

-- The value of an id, which is also its bit in a mask.
abbrev pub number : HeaderId → ℕ
number id_host = 0
number id_connection = 1
number id_accept_encoding = 2
number id_range = 3
number id_if_range = 4
number id_if_modified_since = 5
number id_if_none_match = 6
number id_authorization = 7
number id_cookie = 8
number id_origin = 9
number id_access_control_request_method = 10
number id_access_control_request_headers = 11

abbrev pub same_id : HeaderId → HeaderId → Bool
same_id a b = number a == number b

-- A mask of header bits, as the test of its bits.
abbrev pub Mask : Type 0
Mask = HeaderId → Bool

-- Whether the mask has the header's bit, and the mask with that bit.
abbrev pub add_bit : Mask → HeaderId → Mask
add_bit m a = λ b. if same_id a b then true else m b

-- `CFG_FEAT_*`, as far as they choose headers.
pub record Features : Type 0 where
  pub compression : Bool
  pub range : Bool
  pub conditional : Bool
  pub auth : Bool
  pub cors : Bool

abbrev pub http_headers_store_mask : Features → Mask
http_headers_store_mask f id_host = true
http_headers_store_mask f id_connection = true
http_headers_store_mask f id_accept_encoding = f.compression
http_headers_store_mask f id_range = f.range
http_headers_store_mask f id_if_range = f.range
http_headers_store_mask f id_if_modified_since = f.conditional
http_headers_store_mask f id_if_none_match = f.conditional
http_headers_store_mask f id_authorization = f.auth
http_headers_store_mask f id_cookie = f.auth
http_headers_store_mask f id_origin = f.cors
http_headers_store_mask f id_access_control_request_method = f.cors
http_headers_store_mask f id_access_control_request_headers = f.cors

-- `g_specs`
abbrev pub specs : List (Bytes × HeaderId)
specs =
    (codes "host", id_host)
    ∷ (codes "connection", id_connection)
    ∷ (codes "accept-encoding", id_accept_encoding)
    ∷ (codes "range", id_range)
    ∷ (codes "if-range", id_if_range)
    ∷ (codes "if-modified-since", id_if_modified_since)
    ∷ (codes "if-none-match", id_if_none_match)
    ∷ (codes "authorization", id_authorization)
    ∷ (codes "cookie", id_cookie)
    ∷ (codes "origin", id_origin)
    ∷ (codes "access-control-request-method", id_access_control_request_method)
    ∷ (codes "access-control-request-headers", id_access_control_request_headers)
    ∷ []

unfoldable pub find_spec : List (Bytes × HeaderId) → Bytes → Option HeaderId
find_spec [] name = none
find_spec ((text, id) ∷ rest) name =
    let later = find_spec rest name in if same text name then some id else later

unfoldable pub http_header_lookup_lower : Bytes → Option HeaderId
unfolding find_spec
http_header_lookup_lower name = if length name == 0 then none else find_spec specs name

-- `struct req_hdr_entry`; `truncated` is its only flag.
pub record Entry : Type 0 where
  pub name : Bytes
  pub id : HeaderId
  pub truncated : Bool
  pub value : Bytes

unfoldable pub http_header_find_value : List Entry → HeaderId → Option Bytes
http_header_find_value [] id = none
http_header_find_value (e ∷ es) id =
    let later = http_header_find_value es id in if same_id e.id id then some e.value else later
