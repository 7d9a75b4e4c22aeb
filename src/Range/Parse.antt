-- ===== src/Range/Parse.antt =====
-- The range headers that the parser accepts, and what it makes of them (http_range.c).
use lamseryn.Prelude.{
  ℕ, Bool, true, false, ◌&&◌, ◌||◌, none, some, [], ◌∷◌, ◌++◌, ◌≡◌, ◌≢◌, refl, sym, ap, ◌∙◌, arith,
  Bytes, ltb, leb, ◌==◌, if◌then◌else◌, All, All-append, append-nil,
}
use lamseryn.Range.{
  ByteRange, uint64_max, is_digit, parse_u64, invalid_range, skip_blanks, has_comma, parse_suffix,
  parse_last, parse_separator, parse_spec, is_unit, http_range_parse,
}
use lamseryn.Range.Digits.{IsDigit, value, Stops, parse_u64-digits}

-- The three forms of a single range, over the digits of their numbers.
pub data Spec : Type 0 where
  last_bytes : Bytes → Spec
  from_byte : Bytes → Spec
  between : Bytes → Bytes → Spec

abbrev pub text : Spec → Bytes
text (last_bytes ds) = b'-' ∷ ds
text (from_byte ds) = ds ++ b'-' ∷ []
text (between ds es) = ds ++ b'-' ∷ es

abbrev IsNumber : Bytes → Type 0
IsNumber ds = (ds ≢ []) × All IsDigit ds

abbrev pub IsSpec : Spec → Type 0
IsSpec (last_bytes ds) = IsNumber ds
IsSpec (from_byte ds) = IsNumber ds
IsSpec (between ds es) = IsNumber ds × IsNumber es

abbrev fits : Bytes → Bool
fits ds = leb (value 0 ds) uint64_max

-- What the header means; a number beyond 2^64 - 1, an empty suffix and a range that runs backwards
-- are refused.
abbrev pub meaning : Spec → ByteRange
meaning (last_bytes ds) =
    if fits ds && ltb 0 (value 0 ds)
    then record { valid = true; suffix = true; first = value 0 ds; last = 0 }
    else invalid_range
meaning (from_byte ds) =
    if fits ds
    then record { valid = true; suffix = false; first = value 0 ds; last = uint64_max }
    else invalid_range
meaning (between ds es) =
    if fits ds && (fits es && leb (value 0 ds) (value 0 es))
    then record { valid = true; suffix = false; first = value 0 ds; last = value 0 es }
    else invalid_range

abbrev pub IsBlank : ℕ → Type 0
IsBlank c = (c == b' ' || c == b'\t') ≡ true

-- Bytes that neither the blank test nor the comma test stops at.
abbrev Solid : Bytes → Type 0
Solid = All (λ c. (is_digit c || c == b'-') ≡ true)

Solid-digits : (ds : Bytes) → All IsDigit ds → Solid ds
Solid-digits [] h = tt
Solid-digits (c ∷ ds) h = (ground arith, Solid-digits ds h.1)

Solid-text : (sp : Spec) → IsSpec sp → Solid (text sp)
Solid-text (last_bytes ds) h = (refl, Solid-digits ds h.1)
Solid-text (from_byte ds) h = All-append _ ds (b'-' ∷ []) (Solid-digits ds h.1) (refl, tt)
Solid-text (between ds es) h =
    All-append _ ds (b'-' ∷ es) (Solid-digits ds h.0.1) (refl, Solid-digits es h.1.1)

no_comma : (s : Bytes) → Solid s → has_comma s ≡ false
unfolding has_comma
no_comma [] h = refl
no_comma (c ∷ s) h = ground (arith, no_comma s h.1)

skip_blanks-Solid : (ws s : Bytes) → All IsBlank ws → Solid s → skip_blanks (ws ++ s) ≡ s
unfolding skip_blanks
skip_blanks-Solid [] [] h g = refl
skip_blanks-Solid [] (c ∷ s) h g = ground arith
skip_blanks-Solid (w ∷ ws) s h g = rw (h.0) (skip_blanks-Solid ws s h.1 g)

parse_u64-all :
    (ds : Bytes) → IsNumber ds → parse_u64 ds ≡ (if fits ds then some (value 0 ds, []) else none)
parse_u64-all ds h = ap parse_u64 (sym (append-nil ds)) ∙ parse_u64-digits ds [] h.0 h.1 tt

parse_suffix-digits : (ds : Bytes) → IsNumber ds → parse_suffix ds ≡ meaning (last_bytes ds)
unfolding parse_suffix
parse_suffix-digits ds h = ground (arith, parse_u64-all ds h)

parse_last-digits :
    (first : ℕ) (es : Bytes)
    → IsNumber es
    → parse_last first es ≡ (
        if fits es && leb first (value 0 es)
        then record { valid = true; suffix = false; first = first; last = value 0 es }
        else invalid_range)
unfolding parse_last
parse_last-digits first [] h = absurd (h.0 refl)
parse_last-digits first (c ∷ es) h = ground (arith, parse_u64-all (c ∷ es) h)

parse_spec-number :
    (ds rest : Bytes)
    → IsNumber ds
    → Stops rest
    → Solid (ds ++ rest)
    → parse_spec (ds ++ rest)
      ≡ (if fits ds then parse_separator (value 0 ds) rest else invalid_range)
unfolding parse_spec
parse_spec-number [] rest h stop solid = absurd (h.0 refl)
parse_spec-number (c ∷ ds) rest h stop solid =
    ground (arith, no_comma (c ∷ ds ++ rest) solid, parse_u64-digits (c ∷ ds) rest h.0 h.1 stop)

parse_separator-end :
    (first : ℕ)
    → parse_separator first (b'-' ∷ [])
      ≡ record { valid = true; suffix = false; first = first; last = uint64_max }
unfolding parse_separator parse_last
parse_separator-end first = refl

parse_separator-last :
    (first : ℕ) (es : Bytes) → parse_separator first (b'-' ∷ es) ≡ parse_last first es
unfolding parse_separator
parse_separator-last first es = refl

parse_spec-suffix : (ds : Bytes) → Solid ds → parse_spec (b'-' ∷ ds) ≡ parse_suffix ds
unfolding parse_spec
parse_spec-suffix ds solid = rw (no_comma (b'-' ∷ ds) (refl, solid))

parse_spec-text : (sp : Spec) → IsSpec sp → parse_spec (text sp) ≡ meaning sp
parse_spec-text (last_bytes ds) h =
    parse_spec-suffix ds (Solid-digits ds h.1) ∙ parse_suffix-digits ds h
parse_spec-text (from_byte ds) h =
    rw (parse_spec-number ds (b'-' ∷ []) h refl (Solid-text (from_byte ds) h))
      (rw parse_separator-end)
parse_spec-text (between ds es) h =
    rw
      (
        parse_spec-number ds (b'-' ∷ es) h.0 refl (Solid-text (between ds es) h),
        parse_separator-last,
        parse_last-digits (value 0 ds) es h.1,
      )
      (ground arith)

-- A header with the unit `bytes=`, any blanks, and one of the three forms over non-empty runs of
-- digits is read as what it means.
pub http_range_parse-text :
    (b y t e s eq : ℕ) (ws : Bytes) (sp : Spec)
    → is_unit b y t e s eq ≡ true
    → All IsBlank ws
    → IsSpec sp
    → http_range_parse (b ∷ y ∷ t ∷ e ∷ s ∷ eq ∷ ws ++ text sp) ≡ meaning sp
unfolding http_range_parse
http_range_parse-text b y t e s eq ws sp unit blank spec =
    rw (unit, skip_blanks-Solid ws (text sp) blank (Solid-text sp spec)) (parse_spec-text sp spec)
