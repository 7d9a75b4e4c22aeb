-- ===== src/Rx/Split.antt =====
-- The split of a received chunk at the end of the header block (src/rx_stash.c).
use lamseryn.Prelude.{
  ℕ, ◌+◌, ◌-◌, ◌<◌, false, none, some, [], ◌∷◌, ◌++◌, ◌≡◌, ap, ◌∙◌, arith, Bytes, length,
  length-append, length-drop, append-nil, min, Option-cases, inl, inr,
}
use mathlib.Core.Option
use lamseryn.Rx.Boundary.{find_header_terminator_end}
use lamseryn.Rx.Tail.{HeaderState, split_on_header_end}
use lamseryn.Rx.Chunks.{last_three, find-last_three}
use lamseryn.Rx.Terminator.{find-le-length}

-- How many bytes of a chunk belong to the header block of the stream `s` that it extends: up to the
-- end of the first terminator, or all of them.
abbrev pub header_part : Bytes → Bytes → ℕ
header_part s buf = elim (find_header_terminator_end [] (s ++ buf)) [
  | none ↦ length buf
  | some e ↦ e - length s
]

length-last_three : (s : Bytes) → length (last_three s) ≡ min (length s) 3
length-last_three s = omega (arith, length-drop (length s - 3) s)

-- If RBUF_SZ is above 512, the headers are awaited without an error, and the tail is that of a
-- stream without a terminator, then a chunk is cut where the header block of the stream ends: the
-- part that is fed is the header part, and the rest is left over.
pub split-header_part :
    (rbuf_sz : ℕ) (c : HeaderState) (s buf : Bytes)
    → 512 < rbuf_sz
    → c.headers_done ≡ false
    → c.parse_error ≡ false
    → c.header_too_big ≡ false
    → c.rx_tail ≡ last_three s
    → find_header_terminator_end [] s ≡ none
    → let (feed, tail) = split_on_header_end rbuf_sz c buf in
      (feed ≡ header_part s buf) × (feed + tail ≡ length buf)
unfolding split_on_header_end
split-header_part rbuf_sz c s [] big d p t tail clean =
    let whole = append-nil s in ground (arith, ap (find_header_terminator_end []) whole)
split-header_part rbuf_sz c s (b ∷ buf) big d p t tail clean =
    let at_tail = ap (λ q. find_header_terminator_end q (b ∷ buf)) tail in
    let at_stream = find-last_three s (b ∷ buf) clean in
    elim (Option-cases (find_header_terminator_end (last_three s) (b ∷ buf))) [
      | inl missing ↦
          let stream_missing : find_header_terminator_end [] (s ++ b ∷ buf) ≡ none =
            at_stream ∙ ap (Option.map (λ e. e + (length s - 3))) missing in
          ground (arith, at_tail, missing, stream_missing)
      | inr (e, found) ↦
          let stream_found : find_header_terminator_end [] (s ++ b ∷ buf)
              ≡ some (e + (length s - 3)) =
            at_stream ∙ ap (Option.map (λ e. e + (length s - 3))) found in
          ground (
            arith,
            at_tail,
            found,
            stream_found,
            ap length tail,
            length-last_three s,
            find-le-length [] (s ++ b ∷ buf) _ stream_found,
            length-append s (b ∷ buf),
          )
    ]
