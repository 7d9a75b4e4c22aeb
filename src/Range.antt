-- ===== src/Range.antt =====
-- http_range.c: the Range request header, parsed and resolved against a file size. A header value
-- is the list of its bytes; a uint64_t is a number below 2^64.
pub mod Digits
pub mod Parse
pub mod Resolve
pub mod Served
use lamseryn.Prelude.{
  ℕ, ◌+◌, ◌-◌, ◌*◌, ◌/◌, ◌%◌, ◌^◌, Bool, true, false, ◌&&◌, ◌||◌, not, Option, none, some, [], ◌∷◌,
  ◌≡◌, refl, Bytes, codes, ltb, leb, ◌==◌, if◌then◌else◌, length,
}

abbrev pub uint64_max : ℕ
uint64_max = 2 ^ 64 - 1

abbrev pub is_digit : ℕ → Bool
is_digit c = leb b'0' c && leb c b'9'

-- The loop of `parse_u64`; `none` is an overflow, otherwise the value and what follows the digits.
unfoldable pub scan_u64 : Bytes → ℕ → Option (ℕ × Bytes)
scan_u64 [] val = some (val, [])
scan_u64 (c ∷ s) val =
    let digit = c - b'0' in
    let rest = scan_u64 s ((val * 10 + digit) % 2 ^ 64) in
    if is_digit c
    then if ltb (uint64_max / 10) val || (val == uint64_max / 10 && ltb (uint64_max % 10) digit)
      then none
      else rest
    else some (val, c ∷ s)

-- `none` is the result -1, for no digits or an overflow; `rest` is the text from the new `*pos` on.
unfoldable pub parse_u64 : Bytes → Option (ℕ × Bytes)
unfolding scan_u64
parse_u64 s = elim (scan_u64 s 0) [
  | none ↦ none
  | some (val, rest) ↦ if length rest == length s then none else some (val, rest)
]

-- `struct byte_range`
pub record ByteRange : Type 0 where
  pub valid : Bool
  pub suffix : Bool
  pub first : ℕ
  pub last : ℕ

abbrev pub invalid_range : ByteRange
invalid_range = record { valid = false; suffix = false; first = 0; last = 0 }

unfoldable pub skip_blanks : Bytes → Bytes
skip_blanks [] = []
skip_blanks (c ∷ s) = if c == b' ' || c == b'\t' then skip_blanks s else c ∷ s

unfoldable pub has_comma : Bytes → Bool
has_comma [] = false
has_comma (c ∷ s) = c == b',' || has_comma s

-- The suffix form, behind its '-'.
unfoldable pub parse_suffix : Bytes → ByteRange
unfolding parse_u64
parse_suffix s = elim (parse_u64 s) [
  | none ↦ invalid_range
  | some (suffix_len, rest) ↦
      if not (length rest == 0)
      then invalid_range
      else if suffix_len == 0
      then invalid_range
      else record { valid = true; suffix = true; first = suffix_len; last = 0 }
]

-- The text behind `first-`: open-ended if there is none, and a closed range otherwise.
unfoldable pub parse_last : ℕ → Bytes → ByteRange
unfolding parse_u64
parse_last first [] = record { valid = true; suffix = false; first = first; last = uint64_max }
parse_last first (c ∷ s) = elim (parse_u64 (c ∷ s)) [
  | none ↦ invalid_range
  | some (last, rest) ↦
      if not (length rest == 0)
      then invalid_range
      else if ltb last first
      then invalid_range
      else record { valid = true; suffix = false; first = first; last = last }
]

-- The separator between the two offsets.
unfoldable pub parse_separator : ℕ → Bytes → ByteRange
unfolding parse_last
parse_separator first [] = invalid_range
parse_separator first (c ∷ s) = if c == b'-' then parse_last first s else invalid_range

-- From the first byte behind the blanks on.
unfoldable pub parse_spec : Bytes → ByteRange
unfolding parse_suffix parse_separator parse_u64
parse_spec [] = invalid_range
parse_spec (c ∷ s) =
    if has_comma (c ∷ s)
    then invalid_range
    else if c == b'-'
    then parse_suffix s
    else elim (parse_u64 (c ∷ s)) [
      | none ↦ invalid_range
      | some (first, rest) ↦ parse_separator first rest
    ]

abbrev pub either_case : ℕ → ℕ → ℕ → Bool
either_case c lower upper = c == lower || c == upper

-- The test for the unit, `bytes=` in any case, on its six bytes.
abbrev pub is_unit : ℕ → ℕ → ℕ → ℕ → ℕ → ℕ → Bool
is_unit b y t e s eq =
    either_case b b'b' b'B'
    && (either_case y b'y' b'Y'
        && (either_case t b't' b'T'
            && (either_case e b'e' b'E' && (either_case s b's' b'S' && eq == b'='))))

unfoldable pub http_range_parse : Bytes → ByteRange
unfolding skip_blanks has_comma parse_spec
http_range_parse (b ∷ y ∷ t ∷ e ∷ s ∷ eq ∷ rest) =
    if is_unit b y t e s eq then parse_spec (skip_blanks rest) else invalid_range
http_range_parse _ = invalid_range

-- `struct resolved_range`; `end` is a field of `Resolved`, inclusive.
pub record ResolvedRange : Type 0 where
  pub satisfiable : Bool
  pub start : ℕ
  pub end : ℕ
  pub length : ℕ

abbrev pub unsatisfiable : ResolvedRange
unsatisfiable = record { satisfiable = false; start = 0; end = 0; length = 0 }

-- uint64_t subtraction and addition, which wrap.
abbrev pub sub64 : ℕ → ℕ → ℕ
sub64 a b = (a + 2 ^ 64 - b) % 2 ^ 64

abbrev pub add64 : ℕ → ℕ → ℕ
add64 a b = (a + b) % 2 ^ 64

abbrev pub span : ℕ → ℕ → ResolvedRange
span start end = record {
  satisfiable = true;
  start = start;
  end = end;
  length = add64 (sub64 end start) 1;
}

unfoldable pub http_range_resolve : ByteRange → ℕ → ResolvedRange
http_range_resolve br file_size =
    if not br.valid || file_size == 0
    then unsatisfiable
    else if br.suffix
    then if leb file_size br.first
      then record { satisfiable = true; start = 0; end = sub64 file_size 1; length = file_size }
      else span (sub64 file_size br.first) (sub64 file_size 1)
    else if leb file_size br.first
    then unsatisfiable
    else span br.first
        (if br.last == uint64_max || leb file_size br.last then sub64 file_size 1 else br.last)

closed_form :
    http_range_parse (codes "Bytes= 0-499")
    ≡ record { valid = true; suffix = false; first = 0; last = 499 }
unfolding http_range_parse
closed_form = refl

overflowing : http_range_parse (codes "bytes=18446744073709551616-") ≡ invalid_range
unfolding http_range_parse
overflowing = refl
