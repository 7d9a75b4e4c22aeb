-- ===== src/Tests/Tx.antt =====
-- Examples for tx.c.
use lamseryn.Prelude.{true, false, some, [], ◌∷◌, ◌++◌, ◌≡◌, refl, codes, arith}
use lamseryn.Responses.{rk_ok_ka}
use lamseryn.Tx.{
  TxState, TxNextIo, finished, tx_init, tx_begin_headers, close_of, tx_next_sendfile_chunk,
}
use lamseryn.Tx.Headers.{deliver, completion, deliver_begun}
use lamseryn.Tx.Sendfile.{stream, stream_lem}
use lamseryn.Tx.Order.{attach, reset, do_ops, closes, descriptors_balance}

-- A response begun on a fresh connection.
abbrev pub begun : TxState
begun = record tx_init {
  resp_kind = rk_ok_ka;
  write_buf = some (codes "HTTP/1.1");
  write_len = 8;
  keepalive = true;
}

abbrev first_io : TxNextIo
first_io = record { buf = codes "HTTP/1.1"; len = 8 }

deliver_begun_example :
    deliver begun first_io (3 ∷ 5 ∷ [])
    ≡ some (codes "HTTP/1.1", completion begun, record begun { write_off = 8 })
unfolding tx_init tx_begin_headers
deliver_begun_example =
    deliver_begun tx_init begun rk_ok_ka (codes "HTTP/1.1") true false first_io (3 ∷ 5 ∷ [])
      (ground arith) refl (ground arith)

-- A file of which ten bytes are left.
abbrev sending : TxState
sending = record begun { write_off = 8; file_fd = some 7; file_rem = 10 }

stream_lem_example :
    stream sending (4 ∷ 6 ∷ []) ≡ (finished sending, record sending { file_rem = 0 })
unfolding tx_next_sendfile_chunk
stream_lem_example = stream_lem (4 ∷ 6 ∷ []) sending (ground arith) (ground arith)

-- The same file, while the last byte of the header is not out yet.
abbrev almost : TxState
almost = record sending { write_off = 7 }

descriptors_balance_example :
    let (t, taken, released) = do_ops tx_init (attach 7 0 10 ∷ attach 8 0 5 ∷ reset ∷ []) in
    close_of tx_init.file_fd ++ taken ≡ closes released ++ close_of t.file_fd
descriptors_balance_example =
    descriptors_balance (attach 7 0 10 ∷ attach 8 0 5 ∷ reset ∷ []) tx_init
