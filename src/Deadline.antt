-- ===== src/Deadline.antt =====
-- The timeouts of a connection: conn_deadline.c, conn_deadline.h and conn_deadline_state.h, and the
-- choice of the active deadline in timing_wheel.c. Times are numbers below 2^64; flags are Booleans.
pub mod Choice
use lamseryn.Prelude.{
  ℕ, ◌+◌, ◌%◌, ◌^◌, ◌-◌, ◌/◌, Bool, true, false, ◌&&◌, not, Option, none, some, ltb, ◌==◌,
  if◌then◌else◌,
}
use lamseryn.Tx.{TxState, tx_sendfile_is_active}

-- `enum deadline_kind`
pub data DeadlineKind : Type 0 where
  dk_none dk_drain dk_ka_idle dk_initial_idle dk_header_timeout : DeadlineKind
  dk_body_timeout dk_write_timeout : DeadlineKind

-- `struct deadline_state`
pub record DeadlineState : Type 0 where
  pub last_active_ms : ℕ
  pub header_start_ms : ℕ
  pub header_start_us : ℕ
  pub write_start_ms : ℕ
  pub ka_idle : Bool
  pub closing : Bool
  pub draining : Bool
  pub abortive_close : Bool
  pub drain_deadline_ms : ℕ
  pub deadline_kind : DeadlineKind
  pub deadline_ms : ℕ
  pub deadline_active : Bool

-- The part of `struct conn` that decides the deadline; `is_open` is `fd >= 0`.
pub record TimedConn : Type 0 where
  pub dl : DeadlineState
  pub is_open : Bool
  pub headers_done : Bool
  pub message_done : Bool
  pub parser_bytes : ℕ
  pub tls_enabled : Bool
  pub tls_handshake_done : Bool
  pub tx : TxState

-- The timeouts of the configuration, where they are present.
pub record Timeouts : Type 0 where
  pub keepalive_idle_close_ms : Option ℕ
  pub initial_idle_timeout_ms : Option ℕ
  pub header_timeout_ms : Option ℕ
  pub body_timeout_ms : Option ℕ
  pub write_timeout_ms : Option ℕ
  pub drain_timeout_ms : Option ℕ

abbrev pub configured : Option ℕ → ℕ → ℕ
configured none default = default
configured (some ms) default = ms

abbrev pub later : ℕ → ℕ → ℕ
later start ms = (start + ms) % 2 ^ 64

abbrev pub conn_is_closing_no_deadline : TimedConn → Bool
conn_is_closing_no_deadline c = c.dl.closing && not c.dl.draining

abbrev pub conn_is_keepalive_idle : TimedConn → Bool
conn_is_keepalive_idle c = c.dl.ka_idle && c.parser_bytes == 0

abbrev pub conn_is_initial_idle : TimedConn → Bool
conn_is_initial_idle c = not c.dl.ka_idle && (not c.headers_done && c.parser_bytes == 0)

abbrev pub conn_is_header_in_progress : TimedConn → Bool
conn_is_header_in_progress c = not c.dl.ka_idle && (not c.headers_done && ltb 0 c.parser_bytes)

abbrev pub conn_tls_handshake_pending : TimedConn → Bool
conn_tls_handshake_pending c = c.tls_enabled && not c.tls_handshake_done

abbrev pub tw_conn_is_body_in_progress : TimedConn → Bool
tw_conn_is_body_in_progress c = not c.dl.ka_idle && (c.headers_done && not c.message_done)

abbrev pub headers_pending : TxState → Bool
headers_pending tx = elim tx.write_buf [ none ↦ false | some b ↦ ltb tx.write_off tx.write_len ]

unfoldable pub tw_conn_is_write_in_progress : TimedConn → Bool
unfolding tx_sendfile_is_active
tw_conn_is_write_in_progress c =
    if c.dl.write_start_ms == 0
    then false
    else if headers_pending c.tx
    then true
    else tx_sendfile_is_active c.tx

-- `enum tw_conn_state`
pub data TwConnState : Type 0 where
  tw_none tw_ka_idle tw_initial_idle tw_header_in_progress tw_body_in_progress : TwConnState
  tw_write_in_progress tw_draining tw_closing_no_deadline : TwConnState

unfoldable pub tw_conn_get_state : TimedConn → TwConnState
unfolding tw_conn_is_write_in_progress
tw_conn_get_state c =
    if not c.is_open
    then tw_none
    else if c.dl.draining
    then tw_draining
    else if conn_tls_handshake_pending c
    then tw_initial_idle
    else if conn_is_closing_no_deadline c
    then if tw_conn_is_write_in_progress c then tw_write_in_progress else tw_closing_no_deadline
    else if conn_is_keepalive_idle c
    then tw_ka_idle
    else if conn_is_initial_idle c
    then tw_initial_idle
    else if conn_is_header_in_progress c
    then tw_header_in_progress
    else if tw_conn_is_body_in_progress c
    then tw_body_in_progress
    else if tw_conn_is_write_in_progress c
    then tw_write_in_progress
    else tw_none

-- The kind and the time of the deadline in a state; the time 0 is none.
unfoldable pub deadline_of : Timeouts → DeadlineState → TwConnState → DeadlineKind × ℕ
deadline_of g dl tw_draining = (dk_drain, dl.drain_deadline_ms)
deadline_of g dl tw_ka_idle =
    (dk_ka_idle, later dl.last_active_ms (configured g.keepalive_idle_close_ms 5000))
deadline_of g dl tw_initial_idle =
    (dk_initial_idle, later dl.last_active_ms (configured g.initial_idle_timeout_ms 1000))
deadline_of g dl tw_header_in_progress =
    (dk_header_timeout, later dl.header_start_ms (configured g.header_timeout_ms 30000))
deadline_of g dl tw_body_in_progress =
    (dk_body_timeout, later dl.last_active_ms (configured g.body_timeout_ms 30000))
deadline_of g dl tw_write_in_progress = (
  dk_write_timeout,
  later (if dl.write_start_ms == 0 then dl.last_active_ms else dl.write_start_ms)
      (configured g.write_timeout_ms 10000),
)
deadline_of g dl tw_closing_no_deadline = (dk_none, 0)
deadline_of g dl tw_none = (dk_none, 0)

-- `tw_compute_conn_deadline`: the deadline, and the connection with the kind set.
unfoldable pub tw_compute_conn_deadline : Timeouts → TimedConn → ℕ × TimedConn
unfolding tw_conn_get_state deadline_of
tw_compute_conn_deadline g c =
    let (kind, deadline) = deadline_of g c.dl (tw_conn_get_state c) in
    (deadline, record c { dl = record (c.dl) { deadline_kind = kind } })

-- conn_deadline.c, but for the calls of the timing wheel. `us` is the clock in microseconds.
unfoldable pub conn_enter_keepalive_idle : TimedConn → ℕ → ℕ → TimedConn
conn_enter_keepalive_idle c now_ms us = record c {
  dl = record (c.dl) {
    last_active_ms = now_ms;
    ka_idle = true;
    closing = false;
    header_start_ms = now_ms;
    header_start_us = us;
  };
}

unfoldable pub conn_mark_activity : TimedConn → ℕ → TimedConn
conn_mark_activity c now_ms = record c {
  dl = record (c.dl) { last_active_ms = now_ms; ka_idle = false };
}

unfoldable pub conn_start_draining : Timeouts → TimedConn → ℕ → TimedConn
conn_start_draining g c now_ms = record c {
  dl = record (c.dl) {
    draining = true;
    drain_deadline_ms = later now_ms (configured g.drain_timeout_ms 2000);
  };
}

unfoldable pub conn_clear_draining : TimedConn → TimedConn
conn_clear_draining c = record c { dl = record (c.dl) { draining = false; drain_deadline_ms = 0 } }

unfoldable pub conn_mark_closing : TimedConn → TimedConn
conn_mark_closing c = record c { dl = record (c.dl) { closing = true } }
