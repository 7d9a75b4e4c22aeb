-- ===== src/Rx/Boundary.antt =====
-- src/http_boundary.c: the search for the end of an HTTP header block. A byte buffer is the list
-- of its bytes, and a NULL buffer is the empty list.
use lamseryn.Prelude.{
  ℕ, ◌+◌, Bool, ◌&&◌, Option, none, some, [], ◌∷◌, ◌++◌, ◌≡◌, refl, Bytes, codes, ltb, leb, ◌==◌,
  if◌then◌else◌, length,
}

-- The locals `w0` to `w3`: the last four bytes read.
pub record Window : Type 0 where
  pub w0 : ℕ
  pub w1 : ℕ
  pub w2 : ℕ
  pub w3 : ℕ

abbrev pub shift : Window → ℕ → Window
shift w c = record { w0 = w.w1; w1 = w.w2; w2 = w.w3; w3 = c }

abbrev pub is_terminator : Window → Bool
is_terminator w = w.w0 == b'\r' && (w.w1 == b'\n' && (w.w2 == b'\r' && w.w3 == b'\n'))

-- The `for` loop over the combined stream, from byte `i` on.
unfoldable pub scan : Bytes → ℕ → Window → Option ℕ
scan [] i w = none
scan (c ∷ cs) i w =
    let rest = scan cs (i + 1) (shift w c) in
    if leb 3 i && is_terminator (shift w c) then some (i + 1) else rest

abbrev pub no_bytes : Window
no_bytes = record { w0 = 0; w1 = 0; w2 = 0; w3 = 0 }

-- `none` is the result -1.
unfoldable pub find_header_terminator_end : Bytes → Bytes → Option ℕ
unfolding scan
find_header_terminator_end pre buf =
    if length pre == 0 && length buf == 0
    then none
    else if ltb (length pre + length buf) 4
    then none
    else scan (pre ++ buf) 0 no_bytes

split_over_chunks : find_header_terminator_end (codes "a\r\n") (codes "\r\nbody") ≡ some 5
unfolding find_header_terminator_end
split_over_chunks = refl
