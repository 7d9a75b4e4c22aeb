-- ===== src/Http.antt =====
-- The HTTP/1 state of a connection (conn.h), and what http_parser.c decides when the header block of
-- a request is complete. Flags are Booleans, and the counters of headers are numbers.
pub mod Target
pub mod Served
pub mod Values
pub mod Collect
pub mod Lengths
pub mod Bodies
pub mod Urls
pub mod Tokens
pub mod Ids
pub mod Fields
pub mod Pieces
pub mod Gather
pub mod Captured
pub mod Events
use lamseryn.Prelude.{
  ℕ, Bool, true, false, ◌&&◌, ◌||◌, not, Option, none, some, [], ◌∷◌, Bytes, ltb, ◌==◌, ◌*◌,
  if◌then◌else◌, length, take,
}
use lamseryn.Url.{Result, ok, invalid, overflow, split_path_query, percent_decode_strict}
use lamseryn.Url.Normalize.{path_normalize_absolute}

-- `llhttp_method_t`, as far as it is told apart.
pub data Method : Type 0 where
  get head : Method
  other_method : ℕ → Method

-- The fields of `struct http1_state` that framing, the target and the pipeline use. A pointer is
-- `none` when NULL, and otherwise the bytes that are stored there, whose number is the matching
-- length field.
pub record Http1 : Type 0 where
  pub method : Method
  pub target : Option Bytes
  pub target_cap : ℕ
  pub target_too_long : Bool
  pub path_len : ℕ
  pub query_off : ℕ
  pub query_len : ℕ
  pub path_ends_with_slash : Bool
  pub path_dec : Option Bytes
  pub path_dec_cap : ℕ
  pub path_norm : Option Bytes
  pub path_norm_cap : ℕ
  pub method_not_allowed : Bool
  pub headers_done : Bool
  pub message_done : Bool
  pub parse_error : Bool
  pub internal_error : Bool
  pub header_too_big : Bool
  pub unsupported_te : Bool
  pub want_keepalive : Bool
  pub parser_bytes : ℕ
  pub max_header_bytes : ℕ
  pub body_remaining : ℕ
  pub body_bytes : ℕ
  pub max_body_bytes : ℕ
  pub body_too_big : Bool
  pub pending_line_error : Bool
  pub cl_count : ℕ
  pub te_count : ℕ
  pub cl_invalid : Bool
  pub te_chunked : Bool
  pub te_other : Bool
  pub expect_unsupported : Bool
  pub cl_value : ℕ

-- What `on_headers_complete` learns from outside: whether the two buffers for the path can be
-- allocated, and the body limit of the route rule that applies, if it sets one.
pub record Env : Type 0 where
  pub dec_alloc : Bool
  pub norm_alloc : Bool
  pub route_max_body : Option ℕ

abbrev pub default_max_body_bytes : ℕ
default_max_body_bytes = 1024 * 1024

abbrev pub req_path_max : ℕ
req_path_max = 2048

unfoldable pub current_max_body_bytes : Http1 → ℕ
current_max_body_bytes c =
    if ltb 0 c.max_body_bytes then c.max_body_bytes else default_max_body_bytes

unfoldable pub resolve_max_body_bytes : Env → Http1 → ℕ
unfolding current_max_body_bytes
resolve_max_body_bytes env c = elim env.route_max_body [
  | none ↦ current_max_body_bytes c
  | some limit ↦ limit
]

-- Errors before the target is looked at leave the message open; later ones end it.
abbrev pub reject : Http1 → Http1
reject c = record c { parse_error = true; want_keepalive = false }

abbrev pub refuse : Http1 → Http1
refuse c = record c { parse_error = true; want_keepalive = false; message_done = true }

abbrev pub give_up : Http1 → Http1
give_up c = record c { internal_error = true; want_keepalive = false; message_done = true }

-- The body limit, and how much body is to come.
unfoldable pub complete_body : Env → Http1 → Http1
unfolding resolve_max_body_bytes
complete_body env c =
    let limit = resolve_max_body_bytes env c in
    let limited = record c { max_body_bytes = limit } in
    if c.cl_count == 1
    then if ltb limit c.cl_value
      then record limited { body_too_big = true; want_keepalive = false }
      else record limited { body_remaining = c.cl_value; message_done = c.cl_value == 0 }
    else if c.te_count == 0
    then record limited { body_remaining = 0; message_done = true }
    else limited

-- The results of the normaliser.
unfoldable pub complete_normalized : Env → Http1 → Option (Result (Bytes × Bool)) → Http1
unfolding complete_body
complete_normalized env c (some (ok (norm, slash))) =
    complete_body env (record c { path_norm = some norm; path_ends_with_slash = slash })
complete_normalized env c (some invalid) = refuse c
complete_normalized env c (some overflow) = refuse c
complete_normalized env c none = refuse c

-- The results of the decoder.
unfoldable pub complete_decoded : Env → Http1 → Result Bytes → Http1
unfolding complete_normalized
complete_decoded env c (ok dec) =
    complete_normalized env (record c { path_dec = some dec })
      (path_normalize_absolute dec c.path_norm_cap)
complete_decoded env c invalid = refuse c
complete_decoded env c overflow = refuse c

abbrev pub is_none {ℓ} : {A : Type ℓ} → Option A → Bool
is_none none = true
is_none (some a) = false

-- A buffer that is not there yet is allocated with the length of the path.
abbrev pub with_dec : Http1 → ℕ → Http1
with_dec c path_cap =
    if is_none c.path_dec then record c { path_dec = some []; path_dec_cap = path_cap } else c

abbrev pub with_norm : Http1 → ℕ → Http1
with_norm c path_cap =
    if is_none c.path_norm then record c { path_norm = some []; path_norm_cap = path_cap } else c

unfoldable pub complete_buffers : Env → Http1 → Bytes → Http1
unfolding complete_decoded
complete_buffers env c path =
    let path_cap = if ltb (length path) 1 then 1 else length path in
    if is_none c.path_dec && not env.dec_alloc
    then give_up c
    else let c1 = with_dec c path_cap in
      if is_none c1.path_norm && not env.norm_alloc
      then give_up c1
      else let c2 = with_norm c1 path_cap in
        complete_decoded env c2 (percent_decode_strict path c2.path_dec_cap true)

abbrev pub starts_with_slash : Bytes → Bool
starts_with_slash [] = false
starts_with_slash (c ∷ s) = c == b'/'

-- The target, split at the query.
unfoldable pub complete_path : Env → Http1 → Bytes → Http1
unfolding complete_buffers
complete_path env c target =
    let (path_len, query_off, query_len) = split_path_query target in
    let c1 = record c { path_len = path_len; query_off = query_off; query_len = query_len } in
    if path_len == 0 || not (starts_with_slash target)
    then refuse c
    else if ltb req_path_max path_len
    then refuse c1
    else complete_buffers env c1 (take path_len target)

unfoldable pub complete_with_target : Env → Http1 → Option Bytes → Http1
unfolding complete_path
complete_with_target env c none = refuse c
complete_with_target env c (some []) = refuse c
complete_with_target env c (some (t ∷ target)) =
    if c.target_too_long then refuse c else complete_path env c (t ∷ target)

abbrev pub is_get_or_head : Method → Bool
is_get_or_head get = true
is_get_or_head head = true
is_get_or_head (other_method m) = false

-- The part after the framing checks.
unfoldable pub complete_target : Env → Http1 → Http1
unfolding complete_with_target
complete_target env c =
    if not (is_get_or_head c.method)
    then record c {
      method_not_allowed = true;
      want_keepalive = false;
      message_done = true;
      body_remaining = 0;
    }
    else if c.internal_error
    then record c { want_keepalive = false; message_done = true }
    else complete_with_target env c c.target

abbrev pub fresh_body : Http1 → Http1
fresh_body c = record c {
  unsupported_te = false;
  body_remaining = 0;
  body_bytes = 0;
  max_body_bytes = current_max_body_bytes c;
  body_too_big = false;
  message_done = false;
}

abbrev pub emptied : Option Bytes → Option Bytes
emptied none = none
emptied (some s) = some []

abbrev pub fresh_path : Http1 → Http1
fresh_path c = record c {
  path_dec = emptied c.path_dec;
  path_norm = emptied c.path_norm;
  method_not_allowed = false;
  path_len = 0;
  query_off = elim c.target [ none ↦ 0 | some t ↦ length t ];
  query_len = 0;
  path_ends_with_slash = false;
}

-- `on_headers_complete`, from the point where the last header is accounted for.
unfoldable pub complete_headers : Env → Http1 → Http1
unfolding complete_target
complete_headers env c =
    let c0 = fresh_body c in
    if c.cl_invalid || ltb 1 c.cl_count
    then reject c0
    else if c.expect_unsupported
    then reject c0
    else if ltb 0 c.te_count && ltb 0 c.cl_count
    then reject c0
    else if ltb 0 c.te_count && not (c.te_chunked && not c.te_other)
    then record c0 { unsupported_te = true; want_keepalive = false }
    else complete_target env (fresh_path c0)
