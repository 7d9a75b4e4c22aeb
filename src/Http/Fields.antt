-- ===== src/Http/Fields.antt =====
-- http_parser.c: the callbacks for the names and values of headers, and what is done with a header
-- that is complete; with the limit on their number, http1_limits.c.
use lamseryn.Prelude.{
  ℕ, ◌+◌, ◌*◌, ◌%◌, ◌^◌, Bool, true, false, ◌&&◌, ◌||◌, not, Option, none, some, List, [], ◌∷◌,
  ◌++◌, Bytes, codes, ltb, leb, ◌==◌, if◌then◌else◌, length,
}
use lamseryn.Http.{Http1, Env, Method, complete_headers}
use lamseryn.Http.Values.{append_raw, hdr_append_lower}
use lamseryn.Http.Collect.{content_length_seen}
use lamseryn.Http.Tokens.{same, te_tokens, expect_value_supported}
use lamseryn.Http.Ids.{HeaderId, Mask, add_bit, Entry, http_header_lookup_lower}

-- `hdr_state` 0, 1 and 2, and `hdr_interest` 0 to 3.
pub data HdrState : Type 0 where
  before_field in_field in_value : HdrState

pub data Interest : Type 0 where
  no_interest content_length transfer_encoding expect : Interest

-- The fields of `struct http1_state` for the header that is read, with the rest of it in `h1`. A
-- text and its length field are one list.
pub record Fields : Type 0 where
  pub h1 : Http1
  pub header_fields_too_many : Bool
  pub req_hdr_store_mask : Mask
  pub req_hdr_seen_mask : Mask
  pub hdr_state : HdrState
  pub hdr_interest : Interest
  pub hdr_name : Bytes
  pub hdr_val : Bytes
  pub hdr_val_raw : Bytes
  pub hdr_val_raw_truncated : Bool
  pub hdr_fields_count : ℕ
  pub hdr_fields_max : ℕ
  pub req_hdrs : List Entry
  pub req_hdr_cap : ℕ
  pub expect_count : ℕ
  pub expect_100_continue : Bool

-- Whether the arena has room for more entries, and for the two texts.
pub record ArenaRoom : Type 0 where
  pub entries : Bool
  pub name : Bool
  pub value : Bool

abbrev pub hdr_name_size : ℕ
hdr_name_size = 32

abbrev pub hdr_val_size : ℕ
hdr_val_size = 64

abbrev pub req_hdr_value_max : ℕ
req_hdr_value_max = 128

abbrev pub req_hdrs_max : ℕ
req_hdrs_max = 32

unfoldable pub http_parser_reset_header_state : Fields → Fields
http_parser_reset_header_state c = record c {
  hdr_state = before_field;
  hdr_interest = no_interest;
  hdr_name = [];
  hdr_val = [];
  hdr_val_raw = [];
  hdr_val_raw_truncated = false;
}

-- `http1_header_field_seen`, which also pauses the parser when there are too many.
unfoldable pub http1_header_field_seen : Fields → Fields
http1_header_field_seen c =
    let count = if c.hdr_fields_count == 65535 then 65535 else c.hdr_fields_count + 1 in
    let counted = record c { hdr_fields_count = count } in
    if c.h1.header_too_big
    then c
    else if length c.hdr_name == 0
    then c
    else if not (c.hdr_fields_max == 0) && ltb c.hdr_fields_max count
    then record counted {
      h1 = record (c.h1) { header_too_big = true; want_keepalive = false };
      header_fields_too_many = true;
    }
    else counted

-- `h1_hdrs_ensure_cap`: the new capacity, or `none` for the result -1.
unfoldable pub hdrs_ensure_cap : Bool → ℕ → ℕ → Option ℕ
hdrs_ensure_cap alloc cap need =
    let doubled = if cap == 0 then 8 else (cap * 2) % 2 ^ 8 in
    let enough = if ltb doubled need then need else doubled in
    let new_cap = if ltb req_hdrs_max enough then req_hdrs_max else enough in
    if leb need cap then some cap else if alloc then some new_cap else none

abbrev pub no_room : Fields → Fields
no_room c = record c { h1 = record (c.h1) { internal_error = true; want_keepalive = false } }

-- The new entry; the texts fit the limits that the source cuts them to, as their buffers do.
abbrev pub new_entry : Fields → HeaderId → Entry
new_entry c id = record {
  name = c.hdr_name;
  id = id;
  truncated = c.hdr_val_raw_truncated;
  value = c.hdr_val_raw;
}

-- A header whose bit is wanted and not yet seen; the Boolean is false when the function returns.
unfoldable pub store_header : ArenaRoom → Fields → HeaderId → Bool × Fields
unfolding hdrs_ensure_cap
store_header room c id =
    let seen = record c { req_hdr_seen_mask = add_bit c.req_hdr_seen_mask id } in
    let count = length c.req_hdrs in
    if leb req_hdrs_max count
    then (true, seen)
    else elim (hdrs_ensure_cap room.entries c.req_hdr_cap (count + 1)) [
      | none ↦ (false, no_room seen)
      | some cap ↦
          let grown = record seen { req_hdr_cap = cap } in
          if room.name && room.value
          then (true, record grown { req_hdrs = c.req_hdrs ++ new_entry c id ∷ [] })
          else (false, no_room grown)
    ]

-- By the result of the look-up of the name.
unfoldable pub capture_found : ArenaRoom → Fields → Option HeaderId → Bool × Fields
unfolding store_header
capture_found room c none = (true, c)
capture_found room c (some id) =
    if c.req_hdr_store_mask id && not (c.req_hdr_seen_mask id)
    then store_header room c id
    else (true, c)

unfoldable pub capture_header : ArenaRoom → Fields → Bool × Fields
unfolding http_header_lookup_lower capture_found
capture_header room c = capture_found room c (http_header_lookup_lower c.hdr_name)

abbrev pub te_seen : Fields → Bytes → Fields
te_seen c val =
    let (chunked, other) = te_tokens val c.h1.te_chunked c.h1.te_other in
    record c {
      h1 = record (c.h1) {
        te_count = (c.h1.te_count + 1) % 2 ^ 8;
        te_chunked = chunked;
        te_other = other;
      };
    }

abbrev pub expect_seen : Fields → Bytes → Fields
expect_seen c val =
    let supported = expect_value_supported val in
    record c {
      expect_count = (c.expect_count + 1) % 2 ^ 8;
      expect_100_continue = supported || c.expect_100_continue;
      h1 = record (c.h1) { expect_unsupported = not supported || c.h1.expect_unsupported };
    }

abbrev pub framing_seen : Interest → Fields → Fields
framing_seen no_interest c = c
framing_seen content_length c = record c { h1 = content_length_seen c.h1 c.hdr_val }
framing_seen transfer_encoding c = te_seen c c.hdr_val
framing_seen expect c = expect_seen c c.hdr_val

unfoldable pub finalize_interested_header : ArenaRoom → Fields → Fields
unfolding http1_header_field_seen capture_header
finalize_interested_header room c =
    let counted = http1_header_field_seen c in
    let (go, captured) = capture_header room counted in
    if c.h1.internal_error
    then c
    else if counted.h1.header_too_big
    then counted
    else if go
    then framing_seen captured.hdr_interest captured
    else captured

abbrev pub is_in_value : HdrState → Bool
is_in_value in_value = true
is_in_value before_field = false
is_in_value in_field = false

abbrev pub add_name : Fields → Bytes → Fields
add_name c piece = record c {
  hdr_state = in_field;
  hdr_name = hdr_append_lower hdr_name_size c.hdr_name piece;
}

unfoldable pub on_header_field : ArenaRoom → Fields → Bytes → Fields
unfolding finalize_interested_header http_parser_reset_header_state
on_header_field room c piece =
    let done = http_parser_reset_header_state (finalize_interested_header room c) in
    if length piece == 0
    then c
    else if c.h1.header_too_big
    then c
    else add_name (if is_in_value c.hdr_state then done else c) piece

abbrev pub interest_of : Bytes → Interest
interest_of name =
    if same name (codes "content-length")
    then content_length
    else if same name (codes "transfer-encoding")
    then transfer_encoding
    else if same name (codes "expect")
    then expect
    else no_interest

abbrev pub start_value : Fields → Fields
start_value c = record c {
  hdr_interest = interest_of c.hdr_name;
  hdr_state = in_value;
  hdr_val = [];
  hdr_val_raw = [];
  hdr_val_raw_truncated = false;
}

abbrev pub val_of : Interest → Bytes → Bytes → Bytes
val_of no_interest val piece = val
val_of content_length val piece = hdr_append_lower hdr_val_size val piece
val_of transfer_encoding val piece = hdr_append_lower hdr_val_size val piece
val_of expect val piece = hdr_append_lower hdr_val_size val piece

abbrev pub add_value : Fields → Bytes → Fields
add_value c piece =
    let (kept, cut) = append_raw req_hdr_value_max (length c.hdr_val_raw) piece in
    record c {
      hdr_val_raw = c.hdr_val_raw ++ kept;
      hdr_val_raw_truncated = c.hdr_val_raw_truncated || cut;
      hdr_val = val_of c.hdr_interest c.hdr_val piece;
    }

unfoldable pub on_header_value : Fields → Bytes → Fields
on_header_value c piece =
    if length piece == 0
    then c
    else if c.h1.header_too_big
    then c
    else add_value (if is_in_value c.hdr_state then c else start_value c) piece

-- `on_headers_complete`, given what llhttp says of keep-alive and the method.
unfoldable pub on_headers_complete : ArenaRoom → Env → Bool → Method → Fields → Fields
unfolding finalize_interested_header
on_headers_complete room env keep_alive method c =
    let begun = record c {
      h1 = record (c.h1) { headers_done = true; want_keepalive = keep_alive; method = method };
    } in
    let last = if is_in_value c.hdr_state then finalize_interested_header room begun else begun in
    record last { h1 = complete_headers env last.h1 }
