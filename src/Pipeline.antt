-- ===== src/Pipeline.antt =====
-- http_pipeline.c: bytes fed to the request parser, and what is to be answered. The parser itself
-- is llhttp with the callbacks of http_parser.c; here it is an argument.
pub mod Plans
pub mod Feed
pub mod Framing
use lamseryn.Prelude.{
  ℕ, ◌*◌, ◌+◌, ◌%◌, ◌^◌, Bool, true, false, ◌&&◌, ◌||◌, not, Option, none, some, [], ◌∷◌, Bytes,
  ltb, ◌==◌, if◌then◌else◌, length,
}
use lamseryn.Responses.{
  RespKind, rk_none, rk_ok_close, rk_ok_ka, rk_400, rk_405, rk_413, rk_431, rk_500, rk_501,
}
use lamseryn.Http.{Http1}

-- The fields of `struct conn` that the pipeline uses.
pub record Conn : Type 0 where
  pub h1 : Http1
  pub draining : Bool

-- `enum llhttp_errno`, as far as it is told apart.
pub data LlhttpErrno : Type 0 where
  hpe_ok hpe_paused hpe_cr_expected hpe_lf_expected hpe_invalid_header_token : LlhttpErrno
  hpe_other : ℕ → LlhttpErrno

-- `enum http_action`
pub data HttpAction : Type 0 where
  continue resp_431 resp_400 resp_413 resp_501 resp_ok : HttpAction

-- `struct http_pipeline_result`
pub record HttpPipelineResult : Type 0 where
  pub action : HttpAction
  pub header_too_big_transition : Bool
  pub parse_error_transition : Bool
  pub headers_complete_transition : Bool
  pub tolerated_error : Bool
  pub err : LlhttpErrno

-- `struct http_error_plan`
pub record HttpErrorPlan : Type 0 where
  pub kind : RespKind
  pub keepalive : Bool
  pub drain_after_headers : Bool
  pub close_after_send : Bool

-- `struct http_ok_plan`
pub record HttpOkPlan : Type 0 where
  pub kind : RespKind
  pub keepalive : Bool
  pub close_after_send : Bool

-- `enum http_apply_kind`
pub data HttpApplyKind : Type 0 where
  apply_continue apply_error apply_ok apply_internal_error : HttpApplyKind

-- `struct http_apply_plan`
pub record HttpApplyPlan : Type 0 where
  pub kind : HttpApplyKind
  pub reschedule_on_ok : Bool
  pub error : HttpErrorPlan
  pub ok : HttpOkPlan

abbrev pub no_error : HttpErrorPlan
no_error = record {
  kind = rk_none;
  keepalive = false;
  drain_after_headers = false;
  close_after_send = false;
}

abbrev pub no_ok : HttpOkPlan
no_ok = record { kind = rk_none; keepalive = false; close_after_send = false }

unfoldable pub has_lf : Bytes → Bool
has_lf [] = false
has_lf (c ∷ s) = c == b'\n' || has_lf s

abbrev pub default_max_header_bytes : ℕ
default_max_header_bytes = 64 * 1024

unfoldable pub max_header_bytes : Http1 → ℕ
max_header_bytes h =
    if ltb 0 h.max_header_bytes then h.max_header_bytes else default_max_header_bytes

-- Whether the error is tolerated, and the state after the decision.
unfoldable pub should_tolerate : Http1 → LlhttpErrno → Bytes → Bool × Http1
unfolding has_lf
should_tolerate h hpe_cr_expected buf = (not h.headers_done, h)
should_tolerate h hpe_lf_expected buf = (not h.headers_done, h)
should_tolerate h hpe_invalid_header_token buf =
    if h.headers_done
    then (false, h)
    else if not h.pending_line_error
    then (true, record h { pending_line_error = true })
    else (not (has_lf buf), h)
should_tolerate h err buf = (false, h)

unfoldable pub http_pipeline_classify_action : Conn → HttpAction
http_pipeline_classify_action c =
    if c.h1.header_too_big && not c.draining
    then resp_431
    else if c.h1.unsupported_te
    then resp_501
    else if c.h1.body_too_big
    then resp_413
    else if c.h1.parse_error
    then resp_400
    else if not c.h1.message_done
    then continue
    else resp_ok

abbrev closing_plan : RespKind → HttpErrorPlan
closing_plan rk = record {
  kind = rk;
  keepalive = false;
  drain_after_headers = false;
  close_after_send = true;
}

-- `none` is the result 0.
unfoldable pub http_pipeline_error_plan : HttpAction → Option HttpErrorPlan
http_pipeline_error_plan resp_431 = some (record {
  kind = rk_431;
  keepalive = false;
  drain_after_headers = true;
  close_after_send = false;
})
http_pipeline_error_plan resp_400 = some (closing_plan rk_400)
http_pipeline_error_plan resp_413 = some (closing_plan rk_413)
http_pipeline_error_plan resp_501 = some (closing_plan rk_501)
http_pipeline_error_plan continue = none
http_pipeline_error_plan resp_ok = none

unfoldable pub http_pipeline_internal_error_plan : HttpErrorPlan
http_pipeline_internal_error_plan = closing_plan rk_500

unfoldable pub http_pipeline_ok_plan : Http1 → HttpOkPlan
http_pipeline_ok_plan h =
    if h.method_not_allowed
    then record { kind = rk_405; keepalive = false; close_after_send = true }
    else record {
      kind = if h.want_keepalive then rk_ok_ka else rk_ok_close;
      keepalive = h.want_keepalive;
      close_after_send = false;
    }

abbrev is_resp_ok : HttpAction → Bool
is_resp_ok resp_ok = true
is_resp_ok _ = false

abbrev is_continue : HttpAction → Bool
is_continue continue = true
is_continue _ = false

unfoldable pub http_pipeline_build_apply_plan : Http1 → HttpAction → HttpApplyPlan
unfolding http_pipeline_internal_error_plan http_pipeline_error_plan http_pipeline_ok_plan
http_pipeline_build_apply_plan h act =
    if h.internal_error
    then record {
      kind = apply_internal_error;
      reschedule_on_ok = false;
      error = http_pipeline_internal_error_plan;
      ok = no_ok;
    }
    else elim (http_pipeline_error_plan act) [
      | some plan ↦ record {
        kind = apply_error;
        reschedule_on_ok = is_resp_ok act;
        error = plan;
        ok = no_ok;
      }
      | none ↦
          if is_continue act
          then record {
            kind = apply_continue;
            reschedule_on_ok = is_resp_ok act;
            error = no_error;
            ok = no_ok;
          }
          else record {
            kind = apply_ok;
            reschedule_on_ok = is_resp_ok act;
            error = no_error;
            ok = http_pipeline_ok_plan h;
          }
    ]

abbrev is_error : LlhttpErrno → Bool
is_error hpe_ok = false
is_error hpe_paused = false
is_error _ = true

-- `http_parser_feed`: llhttp runs over a chunk and its callbacks change the state.
abbrev pub Parser : Type 0
Parser = Http1 → Bytes → LlhttpErrno × Http1

-- The state and the flags that one step of the feed sets.
pub record Fed : Type 0 where
  pub h1 : Http1
  pub tolerated : Bool
  pub new_parse_error : Bool
  pub err : LlhttpErrno

-- The terminal states in which nothing more is parsed.
abbrev pub is_terminal : Http1 → Bool
is_terminal h = h.parse_error || (h.header_too_big || (h.unsupported_te || h.message_done))

-- Bytes of the header block are counted, and checked against the limit, before they are parsed.
unfoldable pub count_header_bytes : Http1 → ℕ → Http1
unfolding max_header_bytes
count_header_bytes h n =
    let bytes = (h.parser_bytes + n) % 2 ^ 64 in
    if h.headers_done
    then h
    else if ltb (max_header_bytes h) bytes
    then record h { parser_bytes = bytes; header_too_big = true }
    else record h { parser_bytes = bytes }

-- What follows the parser's return.
unfoldable pub handle_error : LlhttpErrno → Http1 → Bool → Bytes → Fed
unfolding should_tolerate
handle_error err h had_parse_error buf =
    let (tolerate, h') = should_tolerate h err buf in
    if not (is_error err)
    then record { h1 = h; tolerated = false; new_parse_error = false; err = err }
    else if tolerate
    then record { h1 = h'; tolerated = true; new_parse_error = false; err = err }
    else if not h'.body_too_big
    then record {
      h1 = record h' { parse_error = true };
      tolerated = false;
      new_parse_error = not had_parse_error;
      err = err;
    }
    else record { h1 = h'; tolerated = false; new_parse_error = false; err = err }

unfoldable pub run_parser : Parser → Http1 → Bool → Bytes → Fed
unfolding handle_error
run_parser parse h had_parse_error buf =
    if h.header_too_big
    then record { h1 = h; tolerated = false; new_parse_error = false; err = hpe_ok }
    else let (err, h') = parse h buf in handle_error err h' had_parse_error buf

abbrev pub clear_pending : Bool → Http1 → Http1
clear_pending had_headers_done h =
    if not had_headers_done && h.headers_done then record h { pending_line_error = false } else h

-- The connection and the result; an empty chunk changes nothing.
unfoldable pub http_pipeline_feed : Parser → Conn → Bytes → Conn × HttpPipelineResult
unfolding count_header_bytes run_parser http_pipeline_classify_action
http_pipeline_feed parse c [] = (
  c,
  record {
    action = continue;
    header_too_big_transition = false;
    parse_error_transition = false;
    headers_complete_transition = false;
    tolerated_error = false;
    err = hpe_ok;
  },
)
http_pipeline_feed parse c (b ∷ buf) =
    let h0 = c.h1 in
    let h1 = count_header_bytes h0 (length (b ∷ buf)) in
    let fed = run_parser parse h1 h0.parse_error (b ∷ buf) in
    let h2 = clear_pending h0.headers_done fed.h1 in
    let c' : Conn = record c { h1 = h2 } in
    if is_terminal h0
    then (
      c,
      record {
        action = http_pipeline_classify_action c;
        header_too_big_transition = false;
        parse_error_transition = false;
        headers_complete_transition = false;
        tolerated_error = false;
        err = hpe_ok;
      },
    )
    else (
      c',
      record {
        action = http_pipeline_classify_action c';
        header_too_big_transition = h1.header_too_big && not h0.header_too_big;
        parse_error_transition = fed.new_parse_error;
        headers_complete_transition = not h0.headers_done && h2.headers_done;
        tolerated_error = fed.tolerated;
        err = fed.err;
      },
    )
