-- ===== src/Tx/Headers.antt =====
-- Sending a response in pieces (tx.c): the socket takes some bytes of what it is offered, and
-- `tx_on_io_result` says what to offer next.
use lamseryn.Prelude.{
  ℕ, zero, suc, ◌+◌, ◌-◌, ◌^◌, ◌≤◌, ◌<◌, Bool, true, ◌==◌, Option, none, some, List, [], ◌∷◌, ◌++◌,
  ◌≡◌, refl, sym, subst, tests, ap, ◌∙◌, arith, Bytes, ltb, if◌then◌else◌, length, take, drop,
  take-append-drop, drop-drop, length-drop, Bool-cases, inl, inr,
}
use lamseryn.Responses.{RespKind}
use lamseryn.Tx.{
  TxState, TxDecision, send_headers, start_sendfile, shut_wr_and_read, TxNextIo, sent, io_headers,
  has_file, finished, rest_of, tx_begin_headers, tx_on_io_result,
}

-- What is to be done once the whole response header, and its inline body, is out.
abbrev pub completion : TxState → TxDecision
completion tx =
    if tx.drain_after_headers
    then shut_wr_and_read
    else if has_file tx
    then start_sendfile
    else finished tx

-- After a result that took these bytes: with the decision to send more, the rest of the run; with
-- any other, the run is over, and nothing more is offered.
abbrev pub after_result :
    Bytes
    → TxDecision
    → TxState
    → Option (Option (Bytes × TxDecision × TxState))
    → Option (Bytes × TxDecision × TxState)
after_result bytes send_headers t (some (some (more, last, end))) = some (bytes ++ more, last, end)
after_result bytes send_headers t (some none) = none
after_result bytes send_headers t none = none
after_result bytes d t (some rest) = none
after_result bytes d t none = some (bytes, d, t)

-- The bytes that leave through the socket, the last decision and the last state, where the socket
-- takes `ns` bytes in turn of what it is offered, as long as the decision is to send more. The run
-- is `none` when more bytes are offered than there are, when the decision and the offer disagree, or
-- when the results come to an end before the response does.
pub deliver : TxState → TxNextIo → List ℕ → Option (Bytes × TxDecision × TxState)
deliver tx io [] = none
deliver tx io (n ∷ ns) =
    let (d, t, out) = tx_on_io_result tx io_headers (sent n) in
    let rest : Option (Option (Bytes × TxDecision × TxState)) = elim out [
      | none ↦ none
      | some io' ↦ some (deliver t io' ns)
    ] in
    if io.len == length io.buf then after_result (take n io.buf) d t rest else none

-- The socket takes at least one byte, and no more than it is offered, until all are taken.
abbrev pub IsSchedule : List ℕ → ℕ → Type 0
IsSchedule [] rem = rem ≡ 0
IsSchedule (n ∷ ns) rem = (0 < n) × (n ≤ rem) × IsSchedule ns (rem - n)

abbrev at_offset : TxState → ℕ → TxState
at_offset tx o = record tx { write_off = o }

-- One result, where bytes are left and where it is the last.
module _ (tx : TxState) (buf : Bytes) (n : ℕ) (b : tx.write_buf ≡ some buf) where
  io_partial :
      0 < n
      → tx.write_off + n < tx.write_len
      → tx.write_len < 2 ^ 64
      → tx_on_io_result tx io_headers (sent n) ≡ (
        send_headers,
        at_offset tx (tx.write_off + n),
        some (rest_of (at_offset tx (tx.write_off + n)) buf),
      )
  unfolding tx_on_io_result
  io_partial pos more small = ground arith

  io_last :
      0 < n
      → tx.write_off + n ≡ tx.write_len
      → tx.write_len < 2 ^ 64
      → tx_on_io_result tx io_headers (sent n) ≡ (completion tx, at_offset tx tx.write_len, none)
  unfolding tx_on_io_result
  io_last pos done small = ground arith

take-drop : (n o : ℕ) (buf : Bytes) → take n (drop o buf) ++ drop (o + n) buf ≡ drop o buf
take-drop n o buf =
    ap (λ t. take n (drop o buf) ++ t) (sym (drop-drop o n (o + n) buf refl))
    ∙ take-append-drop n (drop o buf)

take_all : (n : ℕ) (s : Bytes) → length s ≤ n → take n s ≡ s
take_all zero [] h = refl
take_all zero (x ∷ s) h = absurd (omega arith)
take_all (suc n) [] h = refl
take_all (suc n) (x ∷ s) h = ap (◌∷◌ x) (take_all n s (omega arith))

-- What follows the response ends the run.
completion-ends :
    (tx t : TxState) (bytes : Bytes)
    → after_result bytes (completion tx) t none ≡ some (bytes, completion tx, t)
completion-ends tx t bytes = ground arith

rest_of-len :
    (tx : TxState) (buf : Bytes)
    → tx.write_len ≡ length buf
    → ((rest_of tx buf).len == length (rest_of tx buf).buf) ≡ true
rest_of-len tx buf l = ground (arith, l, length-drop tx.write_off buf)

deliver-rest :
    (ns : List ℕ) (tx : TxState) (buf : Bytes)
    → tx.write_buf ≡ some buf
    → tx.write_len ≡ length buf
    → length buf < 2 ^ 64
    → tx.write_off < length buf
    → IsSchedule ns (length buf - tx.write_off)
    → deliver tx (rest_of tx buf) ns
      ≡ some (drop tx.write_off buf, completion tx, at_offset tx tx.write_len)
unfolding deliver
deliver-rest [] tx buf b l small begun sched = absurd (omega arith)
deliver-rest (n ∷ ns) tx buf b l small begun sched =
    elim (Bool-cases (ltb (tx.write_off + n) (length buf))) [
      | inl more ↦
          let step = io_partial tx buf n b sched.0 (omega (tests, more)) (omega arith) in
          let rest =
            deliver-rest ns (at_offset tx (tx.write_off + n)) buf b l small (omega (tests, more))
              (subst (IsSchedule ns) (omega arith) sched.2) in
          ground (arith, step, rest, rest_of-len tx buf l, take-drop n tx.write_off buf)
      | inr last ↦
          let step = io_last tx buf n b sched.0 (ground arith) (omega arith) in
          rw (step, rest_of-len tx buf l)
            (completion-ends tx (at_offset tx tx.write_len) _
              ∙ ap (λ s. some (s, completion tx, at_offset tx tx.write_len))
                  (take_all n (drop tx.write_off buf)
                    (ground (arith, last, length-drop tx.write_off buf))))
    ]

-- A response of less than 2^64 bytes that is begun, and of which the socket takes at least one
-- byte at a time until all are taken, goes out byte for byte. Every result but the last decides to
-- send more and offers no more bytes than there are; the last says what follows the response,
-- offers nothing, and leaves nothing.
pub deliver_begun :
    (tx t : TxState) (rk : RespKind) (buf : Bytes) (keepalive drain : Bool) (io : TxNextIo)
    (ns : List ℕ)
    → length buf < 2 ^ 64
    → tx_begin_headers tx rk (some buf) (length buf) keepalive drain ≡ (send_headers, t, some io)
    → IsSchedule ns (length buf)
    → deliver t io ns ≡ some (buf, completion t, record t { write_off = length buf })
unfolding tx_begin_headers
deliver_begun tx t rk [] keepalive drain io ns small begun sched = ground arith
deliver_begun tx t rk (c ∷ buf) keepalive drain io ns small begun sched =
    let rest =
      deliver-rest ns
        (record tx {
          resp_kind = rk;
          write_buf = some (c ∷ buf);
          write_len = length (c ∷ buf);
          write_off = 0;
          keepalive = keepalive;
          drain_after_headers = drain;
        })
        (c ∷ buf) refl refl small (omega arith) (subst (IsSchedule ns) (omega arith) sched) in
    ground (arith, rest)
