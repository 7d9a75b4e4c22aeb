-- ===== src/Rx/Tail.antt =====
-- The rolling tail of src/rx_stash.c: the last bytes of the header stream, kept across receives,
-- and the split of a chunk at the end of the header block.
use lamseryn.Prelude.{
  ℕ, zero, suc, ◌+◌, ◌-◌, Bool, ◌||◌, none, some, [], ◌∷◌, ◌≡◌, refl, Bytes, codes, ltb, leb, ◌==◌,
  if◌then◌else◌, length, get_or,
}
use lamseryn.Rx.Boundary.{find_header_terminator_end}

-- The loop of `conn_rx_tail_update_after_feed`: `k` bytes are still to be copied, the next one from
-- offset `idx` of the old tail followed by the chunk.
unfoldable pub copy_tail : Bytes → Bytes → ℕ → ℕ → Bytes
copy_tail prev fed idx zero = []
copy_tail prev fed idx (suc k) =
    (if ltb idx (length prev) then get_or prev idx 0 else get_or fed (idx - length prev) 0)
    ∷ copy_tail prev fed (idx + 1) k

-- `rx_tail[0..rx_tail_len)` after a feed, from what it was and the bytes fed.
unfoldable pub tail_update_after_feed : Bytes → Bytes → Bytes
unfolding copy_tail
tail_update_after_feed prev fed =
    let total = length prev + length fed in
    let take = if ltb total 3 then total else 3 in copy_tail prev fed (total - take) take

-- The fields of `struct conn` that the split reads.
pub record HeaderState : Type 0 where
  pub headers_done : Bool
  pub parse_error : Bool
  pub header_too_big : Bool
  pub rx_tail : Bytes

-- `(feed_len, tail_len)`. `rbuf_sz` is the compile-time RBUF_SZ, which disables the split when it
-- is at most 512.
unfoldable pub split_on_header_end : ℕ → HeaderState → Bytes → ℕ × ℕ
split_on_header_end rbuf_sz c buf =
    let n = length buf in
    let whole : ℕ × ℕ = (n, 0) in
    if n == 0
    then whole
    else if leb rbuf_sz 512
    then whole
    else if c.headers_done || (c.parse_error || c.header_too_big)
    then whole
    else elim (find_header_terminator_end c.rx_tail buf) [
      | none ↦ whole
      | some end ↦
          let prefix_len = length c.rx_tail in
          let f0 = if ltb prefix_len end then end - prefix_len else 0 in
          let f = if ltb n f0 then n else f0 in (f, n - f)
    ]

keeps_three : tail_update_after_feed (codes "ab") (codes "cd") ≡ codes "bcd"
unfolding tail_update_after_feed
keeps_three = refl
