-- ===== src/Url.antt =====
-- url.c: request targets split at the query, percent-decoded and normalised. A text is the list of
-- its bytes, without a NUL; the results 0, -1 and -2 are `ok`, `invalid` and `overflow`.
pub mod Decode
pub mod Escape
pub mod Segments
pub mod Steps
pub mod Scan
pub mod Refine
pub mod Paths
pub mod Query
pub mod Normalize
use lamseryn.Prelude.{
  ℕ, zero, suc, ◌+◌, ◌-◌, ◌*◌, ◌≤◌, Bool, true, false, ◌&&◌, ◌||◌, Option, none, some, List, [],
  ◌∷◌, ◌++◌, ◌≡◌, refl, arith, Bytes, codes, ltb, leb, ◌==◌, if◌then◌else◌, length, get_or, take,
}

pub data Result {ℓ} (A : Type ℓ) : Type ℓ where
  ok : A → Result A
  invalid : Result A
  overflow : Result A

-- The `for` loop of `url_split_path_query`: the index of the first '?', or the length.
unfoldable pub query_mark : Bytes → ℕ
query_mark [] = 0
query_mark (c ∷ s) = if c == b'?' then 0 else suc (query_mark s)

-- `(path_len, query_off, query_len)`
unfoldable pub split_path_query : Bytes → ℕ × ℕ × ℕ
unfolding query_mark
split_path_query target =
    let target_len = length target in
    let q = query_mark target in
    if q == target_len
    then (q, target_len, 0)
    else (q, q + 1, if leb (q + 1) target_len then target_len - (q + 1) else 0)

-- `none` is the result -1.
unfoldable pub hexval : ℕ → Option ℕ
hexval c =
    if leb b'0' c && leb c b'9'
    then some (c - b'0')
    else if leb b'a' c && leb c b'f'
    then some (10 + (c - b'a'))
    else if leb b'A' c && leb c b'F'
    then some (10 + (c - b'A'))
    else none

-- The byte `(hi << 4) | lo`; `lo` is below 16, so the bits do not overlap.
unfoldable pub join_hex : Option ℕ → Option ℕ → Option ℕ
join_hex (some hi) (some lo) = some (hi * 16 + lo)
join_hex (some hi) none = none
join_hex none lo = none

abbrev pub is_slash : ℕ → Bool
is_slash d = d == b'/' || d == b'\\'

-- What the loop of `url_percent_decode_strict` does with a decoded byte before it is stored.
unfoldable pub admit : Bool → Option ℕ → Result ℕ
admit reject none = invalid
admit reject (some d) = if d == 0 then invalid else if reject && is_slash d then invalid else ok d

-- A byte, and then the outcome of the rest; `o` bytes are out already.
abbrev pub emit : ℕ → ℕ → ℕ → Result Bytes → Result Bytes
emit cap o d rest =
    if ltb cap (o + 1)
    then overflow
    else elim rest [ ok ds ↦ ok (d ∷ ds) | invalid ↦ invalid | overflow ↦ overflow ]

-- The loop of `url_percent_decode_strict`; the result is what it appends to `out`.
unfoldable pub decode_from : Bool → ℕ → Bytes → ℕ → Result Bytes
unfolding hexval join_hex admit
decode_from reject cap [] o = ok []
decode_from reject cap (c ∷ []) o = if c == b'%' then invalid else emit cap o c (ok [])
decode_from reject cap (c ∷ a ∷ []) o =
    let rest = decode_from reject cap (a ∷ []) (o + 1) in
    if c == b'%' then invalid else emit cap o c rest
decode_from reject cap (c ∷ a ∷ b ∷ s) o =
    let escaped = decode_from reject cap s (o + 1) in
    let plain = decode_from reject cap (a ∷ b ∷ s) (o + 1) in
    if c == b'%'
    then elim (admit reject (join_hex (hexval a) (hexval b))) [
      | ok d ↦ emit cap o d escaped
      | invalid ↦ invalid
      | overflow ↦ overflow
    ]
    else emit cap o c plain

unfoldable pub percent_decode_strict : Bytes → ℕ → Bool → Result Bytes
unfolding decode_from
percent_decode_strict input out_cap reject =
    if out_cap == 0 then invalid else decode_from reject out_cap input 0

decodes : percent_decode_strict (codes "/a%20b") 16 true ≡ ok (codes "/a b")
unfolding percent_decode_strict
decodes = refl

rejects_slash : percent_decode_strict (codes "/a%2fb") 16 true ≡ invalid
unfolding percent_decode_strict
rejects_slash = refl
