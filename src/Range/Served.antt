-- ===== src/Range/Served.antt =====
-- From the header's bytes to the bytes served (http_range.c).
use lamseryn.Prelude.{
  ℕ, ◌+◌, ◌-◌, ◌*◌, ◌≤◌, true, Option, none, some, [], ◌∷◌, ◌≡◌, refl, arith, Bytes, ◌==◌, inl, inr,
  Bool-cases, Option-cases,
}
use lamseryn.Range.{
  uint64_max, scan_u64, parse_u64, invalid_range, skip_blanks, has_comma, parse_suffix, parse_last,
  parse_separator, parse_spec, is_unit, http_range_parse, http_range_resolve,
}
use lamseryn.Range.Resolve.{IsWellFormed, IsWithin, http_range_resolve-IsWithin}

scan_u64-fits :
    (s : Bytes) (n v : ℕ) (rest : Bytes)
    → n ≤ uint64_max
    → scan_u64 s n ≡ some (v, rest)
    → v ≤ uint64_max
unfolding scan_u64
scan_u64-fits [] n v rest fits h = ground arith
scan_u64-fits (c ∷ s) n v rest fits h = ground (arith, scan_u64-fits s (n * 10 + (c - b'0')) v rest)

parse_u64-fits : (s : Bytes) (v : ℕ) (rest : Bytes) → parse_u64 s ≡ some (v, rest) → v ≤ uint64_max
unfolding parse_u64
parse_u64-fits s v rest h = ground (arith, scan_u64-fits s 0 v rest)

parse_suffix-IsWellFormed : (s : Bytes) → IsWellFormed (parse_suffix s)
unfolding parse_suffix
parse_suffix-IsWellFormed s = elim (Option-cases (parse_u64 s)) [
  | inl e ↦ ground (arith, e)
  | inr ((n, rest), e) ↦ ground (arith, e, parse_u64-fits s n rest e)
]

parse_last-IsWellFormed :
    (first : ℕ) (s : Bytes) → first ≤ uint64_max → IsWellFormed (parse_last first s)
unfolding parse_last
parse_last-IsWellFormed first [] h = ground arith
parse_last-IsWellFormed first (c ∷ s) h = elim (Option-cases (parse_u64 (c ∷ s))) [
  | inl e ↦ ground (arith, e)
  | inr ((n, rest), e) ↦ ground (arith, e, parse_u64-fits (c ∷ s) n rest e)
]

parse_separator-IsWellFormed :
    (first : ℕ) (s : Bytes) → first ≤ uint64_max → IsWellFormed (parse_separator first s)
unfolding parse_separator
parse_separator-IsWellFormed first [] h = ground arith
parse_separator-IsWellFormed first (c ∷ s) h = elim (Bool-cases (c == b'-')) [
  | inl dash ↦ rw dash (parse_last-IsWellFormed first s h)
  | inr other ↦ rw other (ground arith)
]

parse_number-IsWellFormed :
    (s : Bytes) (r : Option (ℕ × Bytes))
    → parse_u64 s ≡ r
    → IsWellFormed
        (elim r [ none ↦ invalid_range | some (first, rest) ↦ parse_separator first rest ])
parse_number-IsWellFormed s none e = ground arith
parse_number-IsWellFormed s (some (first, rest)) e =
    parse_separator-IsWellFormed first rest (parse_u64-fits s first rest e)

parse_spec-IsWellFormed : (s : Bytes) → IsWellFormed (parse_spec s)
unfolding parse_spec
parse_spec-IsWellFormed [] = ground arith
parse_spec-IsWellFormed (c ∷ s) = elim (Bool-cases (has_comma (c ∷ s))) [
  | inl comma ↦ rw comma (ground arith)
  | inr single ↦ elim (Bool-cases (c == b'-')) [
    | inl dash ↦ rw (single, dash) (parse_suffix-IsWellFormed s)
    | inr number ↦ rw (single, number) (parse_number-IsWellFormed (c ∷ s) (parse_u64 (c ∷ s)) refl)
  ]
]

http_range_parse-IsWellFormed : (v : Bytes) → IsWellFormed (http_range_parse v)
unfolding http_range_parse
http_range_parse-IsWellFormed (b ∷ y ∷ t ∷ e ∷ s ∷ eq ∷ rest) =
    elim (Bool-cases (is_unit b y t e s eq)) [
      | inl unit ↦ rw unit (parse_spec-IsWellFormed (skip_blanks rest))
      | inr other ↦ rw other (ground arith)
    ]
http_range_parse-IsWellFormed _ = ground arith

-- Whatever the header says, for a file whose size fits a uint64_t: a range that is served for it
-- is not empty, lies within the file, and has the length that is announced.
pub range_served-IsWithin :
    (header : Bytes) (size : ℕ)
    → size ≤ uint64_max
    → (http_range_resolve (http_range_parse header) size).satisfiable ≡ true
    → IsWithin (http_range_resolve (http_range_parse header) size) size
range_served-IsWithin header size =
    http_range_resolve-IsWithin (http_range_parse header) size
      (http_range_parse-IsWellFormed header)
