-- ===== src/Tx/Order.antt =====
-- In which order a response leaves, and who closes its file (tx.c).
use lamseryn.Prelude.{
  ℕ, true, Option, none, some, List, [], ◌∷◌, ◌++◌, ◌≡◌, refl, sym, ap, ap₂, Bytes, ◌∙◌, arith,
  if◌then◌else◌, append-nil, append_assoc,
}
use lamseryn.Tx.{
  TxState, start_sendfile, resume_sendfile, TxIoKind, IoResult, tx_init, Release, close_fd,
  free_buf, close_of, free_of, tx_close_attached_file, tx_reset, tx_discard, tx_attach_sendfile,
  tx_on_io_result, tx_on_pollout, tx_pending_headers, tx_sendfile_is_active, io_headers,
  io_sendfile, sent, failed,
}

-- The events at which the worker turns to the file body: a result that says to start it, and a
-- wait that ends in resuming it; the index is the state after the event.
pub data Starts (tx : TxState) : TxState → Type 0 where
  on_io :
      (kind : TxIoKind) (r : IoResult) {t : TxState}
      → (tx_on_io_result tx kind r).0 ≡ start_sendfile
      → t ≡ (tx_on_io_result tx kind r).1
      → Starts tx t
  on_pollout : {t : TxState} → (tx_on_pollout tx).0 ≡ resume_sendfile → t ≡ tx → Starts tx t

io_starts :
    (tx : TxState) (kind : TxIoKind) (r : IoResult)
    → (tx_on_io_result tx kind r).0 ≡ start_sendfile
    → let t = (tx_on_io_result tx kind r).1 in
      (tx_sendfile_is_active t ≡ true) × (tx_pending_headers t ≡ none)
unfolding tx_on_io_result tx_sendfile_is_active tx_pending_headers
io_starts tx io_headers (sent n) h = ground arith
io_starts tx io_sendfile (sent n) h = ground arith
io_starts tx io_headers (failed e) h = ground arith
io_starts tx io_sendfile (failed e) h = ground arith

pollout_starts :
    (tx : TxState)
    → (tx_on_pollout tx).0 ≡ resume_sendfile
    → (tx_sendfile_is_active tx ≡ true) × (tx_pending_headers tx ≡ none)
unfolding tx_on_pollout tx_sendfile_is_active tx_pending_headers
pollout_starts tx h = ground arith

-- The worker turns to the file body only when a file with bytes left is attached and no byte of the
-- response header is pending.
pub sendfile_after_headers :
    (tx t : TxState)
    → Starts tx t
    → (tx_sendfile_is_active t ≡ true) × (tx_pending_headers t ≡ none)
sendfile_after_headers tx t (on_io kind r h e) = rw e (io_starts tx kind r h)
sendfile_after_headers tx t (on_pollout h e) = rw e (pollout_starts tx h)

-- A reset leaves the state of a fresh connection; it closes the attached file and frees the built
-- response.
pub tx_reset_lem :
    (tx : TxState) → tx_reset tx ≡ (tx_init, close_of tx.file_fd ++ free_of tx.dyn_buf)
unfolding tx_reset tx_init
tx_reset_lem tx = refl

-- What a connection does with files.
pub data FileOp : Type 0 where
  attach : ℕ → ℕ → ℕ → FileOp
  close_attached reset discard : FileOp

-- The state after an operation, the files that it took over, and what it released.
pub do_op : TxState → FileOp → TxState × List Release × List Release
do_op tx (attach fd offset length) =
    let (taken, t, released) = tx_attach_sendfile tx (some fd) offset length in
    (t, if taken then close_fd fd ∷ [] else [], released)
do_op tx close_attached = let (t, released) = tx_close_attached_file tx in (t, [], released)
do_op tx reset = let (t, released) = tx_reset tx in (t, [], released)
do_op tx discard = let (t, released) = tx_discard tx in (t, [], released)

pub do_ops : TxState → List FileOp → TxState × List Release × List Release
do_ops tx [] = (tx, [], [])
do_ops tx (op ∷ ops) =
    let (t, taken, released) = do_op tx op in
    let (t', taken', released') = do_ops t ops in (t', taken ++ taken', released ++ released')

-- The closed descriptors among what is released.
abbrev pub closes : List Release → List Release
closes [] = []
closes (close_fd n ∷ rs) = close_fd n ∷ closes rs
closes (free_buf b ∷ rs) = closes rs

closes-append : (xs ys : List Release) → closes (xs ++ ys) ≡ closes xs ++ closes ys
closes-append [] ys = refl
closes-append (close_fd n ∷ xs) ys = ap (◌∷◌ (close_fd n)) (closes-append xs ys)
closes-append (free_buf b ∷ xs) ys = closes-append xs ys

closes-close_of : (fd : Option ℕ) → closes (close_of fd) ≡ close_of fd
closes-close_of none = refl
closes-close_of (some n) = refl

closes-free_of : (b : Option Bytes) → closes (free_of b) ≡ []
closes-free_of none = refl
closes-free_of (some b) = refl

op_balance :
    (tx : TxState) (op : FileOp)
    → let (t, taken, released) = do_op tx op in
      close_of tx.file_fd ++ taken ≡ closes released ++ close_of t.file_fd
unfolding do_op tx_attach_sendfile tx_close_attached_file tx_reset tx_discard
op_balance tx (attach fd offset length) =
    ground (arith, append-nil (close_of tx.file_fd), closes-close_of tx.file_fd)
op_balance tx close_attached = ground (arith, closes-close_of tx.file_fd)
op_balance tx reset =
    ap (λ rs. rs ++ [])
      (sym (
        closes-append (close_of tx.file_fd) (free_of tx.dyn_buf)
        ∙ ap₂ ◌++◌ (closes-close_of tx.file_fd) (closes-free_of tx.dyn_buf)
        ∙ append-nil (close_of tx.file_fd)))
op_balance tx discard =
    append-nil (close_of tx.file_fd)
    ∙ sym (ap (λ rs. rs ++ close_of tx.file_fd) (closes-free_of tx.dyn_buf))

-- Over any operations, the descriptors held before and those taken over are, in their order, the
-- ones that were closed and the one still held: none is closed twice, and none is lost.
pub descriptors_balance :
    (ops : List FileOp) (tx : TxState)
    → let (t, taken, released) = do_ops tx ops in
      close_of tx.file_fd ++ taken ≡ closes released ++ close_of t.file_fd
unfolding do_ops
descriptors_balance [] tx = append-nil (close_of tx.file_fd)
descriptors_balance (op ∷ ops) tx =
    let (t, taken, released) = do_op tx op in
    let (t', taken', released') = do_ops t ops in
    sym (append_assoc (close_of tx.file_fd) taken taken')
    ∙ ap (λ rs. rs ++ taken') (op_balance tx op)
    ∙ append_assoc (closes released) (close_of t.file_fd) taken'
    ∙ ap (λ rs. closes released ++ rs) (descriptors_balance ops t)
    ∙ sym (append_assoc (closes released) (closes released') (close_of t'.file_fd))
    ∙ ap (λ rs. rs ++ close_of t'.file_fd) (sym (closes-append released released'))
