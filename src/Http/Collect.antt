-- ===== src/Http/Collect.antt =====
-- The callbacks of http_parser.c that collect the target, count the body, and account for a
-- Content-Length header.
use lamseryn.Prelude.{
  ℕ, ◌+◌, ◌-◌, ◌*◌, ◌%◌, ◌^◌, Bool, true, false, ◌||◌, Option, none, some, [], ◌++◌, Bytes, ltb,
  leb, ◌==◌, if◌then◌else◌, length,
}
use lamseryn.Range.{uint64_max}
use lamseryn.Http.{Http1, current_max_body_bytes, is_none}
use lamseryn.Http.Values.{parse_u64_ows_decimal}

abbrev pub req_target_max : ℕ
req_target_max = 2048

-- The loop that doubles the capacity, on fuel: a capacity of at least 1 is doubled at most 64 times
-- before it wraps around.
unfoldable pub grow : ℕ → ℕ → ℕ → ℕ
grow ℕ.zero new_cap need = new_cap
grow (ℕ.suc fuel) new_cap need =
    let doubled = (new_cap * 2) % 2 ^ 64 in
    let rest = grow fuel doubled need in
    if leb need new_cap then new_cap else if leb doubled new_cap then new_cap else rest

abbrev pub at_least : ℕ → ℕ → ℕ
at_least capped need = if ltb capped need then need else capped

unfoldable pub new_capacity : ℕ → ℕ → ℕ
unfolding grow
new_capacity target_cap need =
    let grown = grow 64 (if target_cap == 0 then 64 else target_cap) need in
    let capped = if ltb req_target_max grown then req_target_max else grown in at_least capped need

abbrev pub stored : Option Bytes → Bytes
stored none = []
stored (some t) = t

-- The copy of the bytes behind those that are there.
abbrev pub put_target : Http1 → Bytes → ℕ → Http1
put_target c piece size = record c { target = some (stored c.target ++ piece); target_cap = size }

abbrev pub too_long : Http1 → Http1
too_long c = record c { target_too_long = true; parse_error = true; want_keepalive = false }

abbrev pub no_memory : Http1 → Http1
no_memory c = record c { internal_error = true; want_keepalive = false }

-- `on_url`; `alloc` tells whether a larger buffer can be allocated.
unfoldable pub on_url : Bool → Http1 → Bytes → Http1
unfolding new_capacity
on_url alloc c piece =
    let need = length (stored c.target) + length piece in
    if length piece == 0
    then c
    else if c.target_too_long || c.internal_error
    then c
    else if ltb req_target_max need
    then too_long c
    else if is_none c.target || ltb c.target_cap need
    then if alloc then put_target c piece (new_capacity c.target_cap need) else no_memory c
    else put_target c piece c.target_cap

abbrev pub body_over : Http1 → Http1
body_over c = record c { body_too_big = true; want_keepalive = false }

-- `on_body`: whether the parser goes on, and the state.
unfoldable pub on_body : Http1 → ℕ → Bool × Http1
on_body c n =
    let counted = record c { body_bytes = c.body_bytes + n } in
    if n == 0
    then (true, c)
    else if ltb (uint64_max - n) c.body_bytes
    then (false, body_over c)
    else if ltb (current_max_body_bytes counted) counted.body_bytes
    then (false, body_over counted)
    else (true, counted)

-- The part of `h1_finalize_interested_header` for a Content-Length header, from its value.
unfoldable pub content_length_seen : Http1 → Bytes → Http1
content_length_seen c val =
    let count = (c.cl_count + 1) % 2 ^ 8 in
    let c1 : Http1 = record c { cl_count = count; cl_invalid = c.cl_invalid || ltb 1 count } in
    elim (parse_u64_ows_decimal val) [
      | none ↦ record c1 { cl_invalid = true }
      | some v ↦
          if count == 1
          then record c1 { cl_value = v }
          else if c.cl_value == v
          then c1
          else record c1 { cl_invalid = true }
    ]

-- `on_message_complete`, which also pauses the parser.
unfoldable pub on_message_complete : Http1 → Http1
on_message_complete c = record c { message_done = true }
