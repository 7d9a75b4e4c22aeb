-- ===== src/Tx/Sendfile.antt =====
-- Streaming a file body (tx.c).
use lamseryn.Prelude.{
  ℕ, ◌-◌, ◌≤◌, ◌<◌, none, List, [], ◌∷◌, ◌≡◌, tests, arith, ltb, Bool-cases, inl, inr,
}
use lamseryn.Tx.{
  TxState, TxDecision, resume_sendfile, sent, io_sendfile, finished, tx_on_io_result,
  tx_next_sendfile_chunk, max_sendfile_chunk,
}

-- Each round hands the kernel the next chunk; it sends at least one byte, and not more than that.
abbrev pub IsSchedule : TxState → List ℕ → Type 0
IsSchedule tx [] = tx.file_rem ≡ 0
IsSchedule tx (n ∷ ns) =
    (0 < n)
    × (n ≤ tx_next_sendfile_chunk tx)
    × IsSchedule (record tx { file_rem = tx.file_rem - n }) ns

-- The results of the rounds, as long as the decision is to go on.
pub stream : TxState → List ℕ → TxDecision × TxState
stream tx [] = (resume_sendfile, tx)
stream tx (n ∷ ns) =
    let (d, t, _) = tx_on_io_result tx io_sendfile (sent n) in
    elim d [ resume_sendfile ↦ stream t ns | other ↦ (other, t) ]

chunk-le : (tx : TxState) → tx_next_sendfile_chunk tx ≤ tx.file_rem
unfolding tx_next_sendfile_chunk
chunk-le tx = ground arith

-- A chunk is never empty while bytes remain, never more than 1 MiB, and never more than remains.
pub tx_next_sendfile_chunk_bounds :
    (tx : TxState)
    → (tx_next_sendfile_chunk tx ≤ tx.file_rem)
      × (tx_next_sendfile_chunk tx ≤ max_sendfile_chunk)
      × (0 < tx.file_rem → 0 < tx_next_sendfile_chunk tx)
unfolding tx_next_sendfile_chunk
tx_next_sendfile_chunk_bounds tx = ground arith

io_more :
    (tx : TxState) (n : ℕ)
    → 0 < n
    → n < tx.file_rem
    → tx_on_io_result tx io_sendfile (sent n)
      ≡ (resume_sendfile, record tx { file_rem = tx.file_rem - n }, none)
unfolding tx_on_io_result
io_more tx n pos more = ground arith

io_last :
    (tx : TxState) (n : ℕ)
    → 0 < n
    → n ≡ tx.file_rem
    → tx_on_io_result tx io_sendfile (sent n) ≡ (finished tx, record tx { file_rem = 0 }, none)
unfolding tx_on_io_result
io_last tx n pos last = ground arith

-- A body with bytes left that is streamed in rounds of at least one byte and at most the chunk
-- asked for, until all are sent, is sent to its last byte: every result but the last asks to
-- resume, the last ends the response, and nothing remains.
pub stream_lem :
    (ns : List ℕ) (tx : TxState)
    → 0 < tx.file_rem
    → IsSchedule tx ns
    → stream tx ns ≡ (finished tx, record tx { file_rem = 0 })
unfolding stream
stream_lem [] tx pos sched = absurd (omega arith)
stream_lem (n ∷ ns) tx pos sched = elim (Bool-cases (ltb n tx.file_rem)) [
  | inl more ↦ ground (
    arith,
    io_more tx n sched.0 (omega (tests, more)),
    stream_lem ns (record tx { file_rem = tx.file_rem - n }) (omega (tests, more)) sched.2,
  )
  | inr last ↦
      let here : n ≡ tx.file_rem = ground (arith, chunk-le tx, last) in
      ground (arith, io_last tx n sched.0 here)
]
