-- ===== src/Tx.antt =====
-- tx.c: the transmit state of a connection. A pointer into a response is the bytes from there on,
-- NULL and the descriptor -1 are `none`; a size_t is a number below 2^64.
pub mod Headers
pub mod Sendfile
pub mod Order
use lamseryn.Prelude.{
  ℕ, ◌+◌, ◌-◌, ◌%◌, ◌^◌, Bool, true, false, ◌&&◌, not, Option, none, some, List, [], ◌∷◌, ◌++◌,
  Bytes, ltb, leb, ◌==◌, if◌then◌else◌, drop,
}
use lamseryn.Responses.{RespKind, rk_none, rk_431, rk_503}

-- `struct tx_state_t`, without the test-only field.
pub record TxState : Type 0 where
  pub write_len : ℕ
  pub write_off : ℕ
  pub content_length_hint : ℕ
  pub write_buf : Option Bytes
  pub dyn_buf : Option Bytes
  pub resp_kind : RespKind
  pub keepalive : Bool
  pub drain_after_headers : Bool
  pub write_poll_armed : Bool
  pub recv_armed : Bool
  pub file_fd : Option ℕ
  pub file_rem : ℕ
  pub file_off : ℕ

-- `enum tx_decision`
pub data TxDecision : Type 0 where
  tx_noop send_headers start_sendfile resume_sendfile arm_pollout cancel_pollout : TxDecision
  shut_wr_and_read done_keepalive done_close error_close : TxDecision

-- `enum tx_io_kind`
pub data TxIoKind : Type 0 where
  io_headers io_sendfile : TxIoKind

-- `struct tx_next_io`
pub record TxNextIo : Type 0 where
  pub buf : Bytes
  pub len : ℕ

-- The `ssize_t sent` of a completed operation: a count of bytes, or a negated errno.
pub data Errno : Type 0 where
  eagain eintr : Errno
  other_errno : ℕ → Errno

pub data IoResult : Type 0 where
  sent : ℕ → IoResult
  failed : Errno → IoResult

-- What a call does to the system besides its state: closed descriptors and freed buffers.
pub data Release : Type 0 where
  close_fd : ℕ → Release
  free_buf : Bytes → Release

unfoldable pub tx_init : TxState
tx_init = record {
  write_len = 0;
  write_off = 0;
  content_length_hint = 0;
  write_buf = none;
  dyn_buf = none;
  resp_kind = rk_none;
  keepalive = false;
  drain_after_headers = false;
  write_poll_armed = false;
  recv_armed = false;
  file_fd = none;
  file_rem = 0;
  file_off = 0;
}

abbrev pub close_of : Option ℕ → List Release
close_of none = []
close_of (some fd) = close_fd fd ∷ []

abbrev pub free_of : Option Bytes → List Release
free_of none = []
free_of (some b) = free_buf b ∷ []

unfoldable pub tx_close_attached_file : TxState → TxState × List Release
tx_close_attached_file tx =
    (record tx { file_fd = none; file_rem = 0; file_off = 0 }, close_of tx.file_fd)

unfoldable pub tx_reset : TxState → TxState × List Release
unfolding tx_close_attached_file
tx_reset tx =
    let (t, closed) = tx_close_attached_file tx in
    (
      record t {
        dyn_buf = none;
        write_buf = none;
        write_len = 0;
        write_off = 0;
        content_length_hint = 0;
        resp_kind = rk_none;
        write_poll_armed = false;
        keepalive = false;
        drain_after_headers = false;
        recv_armed = false;
      },
      closed ++ free_of t.dyn_buf,
    )

unfoldable pub tx_discard : TxState → TxState × List Release
tx_discard tx = (
  record tx { dyn_buf = none; write_buf = none; write_len = 0; write_off = 0 },
  free_of tx.dyn_buf,
)

-- The buffer is `none` for NULL. The third part is what is written through `out`.
unfoldable pub tx_begin_headers :
    TxState → RespKind → Option Bytes → ℕ → Bool → Bool → TxDecision × TxState × Option TxNextIo
tx_begin_headers tx rk none len keepalive drain = (error_close, tx, none)
tx_begin_headers tx rk (some buf) len keepalive drain =
    if len == 0 then (error_close, tx, none) else (
      send_headers,
      record tx {
        resp_kind = rk;
        write_buf = some buf;
        write_len = len;
        write_off = 0;
        keepalive = keepalive;
        drain_after_headers = drain;
      },
      some (record { buf = buf; len = len }),
    )

unfoldable pub tx_begin_sendfile : TxState → ℕ → ℕ → TxState
tx_begin_sendfile tx offset length = record tx { file_rem = length; file_off = offset }

-- The descriptor is `none` when negative; the Boolean is false for the result -1.
unfoldable pub tx_attach_sendfile : TxState → Option ℕ → ℕ → ℕ → Bool × TxState × List Release
unfolding tx_close_attached_file
tx_attach_sendfile tx none offset length = (false, tx, [])
tx_attach_sendfile tx (some fd) offset length =
    if length == 0
    then (false, tx, [])
    else let (t, closed) = tx_close_attached_file tx in
      (true, record t { file_fd = some fd; file_rem = length; file_off = offset }, closed)

abbrev pub has_file : TxState → Bool
has_file tx = elim tx.file_fd [ none ↦ false | some fd ↦ ltb 0 tx.file_rem ]

unfoldable pub tx_sendfile_is_active : TxState → Bool
tx_sendfile_is_active tx = has_file tx

abbrev pub finished : TxState → TxDecision
finished tx = if tx.keepalive then done_keepalive else done_close

-- The bytes of the response from `write_off` on.
abbrev pub rest_of : TxState → Bytes → TxNextIo
rest_of tx buf = record { buf = drop tx.write_off buf; len = tx.write_len - tx.write_off }

-- `kind == TX_IO_HEADERS` with a positive count.
unfoldable pub after_headers : TxState → Option Bytes → ℕ → TxDecision × TxState × Option TxNextIo
after_headers tx none n = (error_close, tx, none)
after_headers tx (some buf) n =
    let t = record tx { write_off = (tx.write_off + n) % 2 ^ 64 } in
    if tx.write_len == 0
    then (error_close, tx, none)
    else if ltb t.write_off t.write_len
    then (send_headers, t, some (rest_of t buf))
    else if t.drain_after_headers
    then (shut_wr_and_read, t, none)
    else if has_file t
    then (start_sendfile, t, none)
    else (finished t, t, none)

-- `kind == TX_IO_SENDFILE` with a positive count.
unfoldable pub after_sendfile : TxState → ℕ → TxDecision × TxState × Option TxNextIo
after_sendfile tx n =
    let s = if ltb tx.file_rem n then tx.file_rem else n in
    let t = record tx { file_rem = tx.file_rem - s } in
    if tx.file_rem == 0
    then (finished tx, tx, none)
    else if ltb 0 t.file_rem
    then (resume_sendfile, t, none)
    else (finished t, t, none)

unfoldable pub tx_on_error : TxIoKind → Errno → TxDecision
tx_on_error kind eagain = arm_pollout
tx_on_error io_sendfile eintr = tx_noop
tx_on_error io_headers eintr = error_close
tx_on_error kind (other_errno e) = error_close

abbrev after_success : TxState → TxIoKind → ℕ → TxDecision × TxState × Option TxNextIo
after_success tx io_headers n = after_headers tx tx.write_buf n
after_success tx io_sendfile n = after_sendfile tx n

unfoldable pub tx_on_io_result :
    TxState → TxIoKind → IoResult → TxDecision × TxState × Option TxNextIo
unfolding after_headers after_sendfile tx_on_error
tx_on_io_result tx kind (failed e) = (tx_on_error kind e, tx, none)
tx_on_io_result tx kind (sent n) =
    if n == 0 then (error_close, tx, none) else after_success tx kind n

-- `none` is the result 0.
unfoldable pub tx_pending_headers : TxState → Option TxNextIo
tx_pending_headers tx = elim tx.write_buf [
  | none ↦ none
  | some buf ↦
      if tx.write_len == 0
      then none
      else if leb tx.write_len tx.write_off
      then none
      else some (rest_of tx buf)
]

abbrev pub is_none : RespKind → Bool
is_none rk_none = true
is_none _ = false

abbrev headers_done : TxState → Bool
headers_done tx = elim tx.write_buf [ none ↦ true | some b ↦ leb tx.write_len tx.write_off ]

unfoldable pub tx_on_pollout : TxState → TxDecision × Option TxNextIo
unfolding tx_pending_headers
tx_on_pollout tx =
    if has_file tx && headers_done tx
    then (resume_sendfile, none)
    else if is_none tx.resp_kind
    then (tx_noop, none)
    else elim (tx_pending_headers tx) [ none ↦ (tx_noop, none) | some io ↦ (send_headers, some io) ]

-- `enum tx_after_action`
pub data TxAfterAction : Type 0 where
  after_close after_shut_wr_and_read after_keepalive_reset : TxAfterAction

abbrev is_431 : RespKind → Bool
is_431 rk_431 = true
is_431 _ = false

abbrev is_503 : RespKind → Bool
is_503 rk_503 = true
is_503 _ = false

unfoldable pub tx_after_full_response : TxState → Bool → TxAfterAction
tx_after_full_response tx conn_draining =
    if conn_draining && is_431 tx.resp_kind
    then after_shut_wr_and_read
    else if is_503 tx.resp_kind
    then after_close
    else if tx.keepalive
    then after_keepalive_reset
    else after_close

abbrev pub max_sendfile_chunk : ℕ
max_sendfile_chunk = 2 ^ 20

unfoldable pub tx_next_sendfile_chunk : TxState → ℕ
tx_next_sendfile_chunk tx =
    if tx.file_rem == 0
    then 0
    else if ltb max_sendfile_chunk tx.file_rem
    then max_sendfile_chunk
    else tx.file_rem

-- `enum tx_sendfile_step`
pub data TxSendfileStep : Type 0 where
  sf_retry sf_resume sf_arm_pollout sf_error_close sf_shut_wr_and_read : TxSendfileStep
  sf_after_full_response : TxSendfileStep

unfoldable pub tx_sendfile_step_from_decision : TxDecision → TxSendfileStep
tx_sendfile_step_from_decision resume_sendfile = sf_resume
tx_sendfile_step_from_decision tx_noop = sf_retry
tx_sendfile_step_from_decision arm_pollout = sf_arm_pollout
tx_sendfile_step_from_decision error_close = sf_error_close
tx_sendfile_step_from_decision shut_wr_and_read = sf_shut_wr_and_read
tx_sendfile_step_from_decision _ = sf_after_full_response

-- The flags that track armed operations.
unfoldable pub tx_notify_poll_armed : TxState → TxState
tx_notify_poll_armed tx = record tx { write_poll_armed = true }

unfoldable pub tx_notify_poll_disarmed_staged : TxState → TxState
tx_notify_poll_disarmed_staged tx = record tx { write_poll_armed = false }

unfoldable pub tx_recv_mark_armed : TxState → TxState
tx_recv_mark_armed tx = record tx { recv_armed = true }

unfoldable pub tx_recv_mark_disarmed : TxState → TxState
tx_recv_mark_disarmed tx = record tx { recv_armed = false }

unfoldable pub tx_should_arm_pollout : TxState → Bool
tx_should_arm_pollout tx = not tx.write_poll_armed

unfoldable pub tx_recv_is_armed : TxState → Bool
tx_recv_is_armed tx = tx.recv_armed

unfoldable pub tx_pollout_is_armed : TxState → Bool
tx_pollout_is_armed tx = tx.write_poll_armed
