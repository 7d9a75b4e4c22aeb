-- ===== src/Http/Values.antt =====
-- How http_parser.c collects the headers that decide the framing, and what it reads in them:
-- bounded buffers for a header's text, decimal lengths, and lists of tokens.
use lamseryn.Prelude.{
  ℕ, ◌+◌, ◌-◌, ◌*◌, ◌/◌, ◌≤◌, ◌<◌, Bool, true, false, ◌&&◌, ◌||◌, Option, none, some, List, [], ◌∷◌,
  ◌++◌, ◌≡◌, ◌≢◌, refl, sym, ap, ◌∙◌, arith, Bytes, codes, ltb, leb, ◌==◌, if◌then◌else◌, length,
  All, append-nil, Bool-cases, inl, inr, take, tests, append_assoc,
}
use mathlib.Core.List.{foldl, flatten}
use lamseryn.Range.{is_digit, uint64_max}
use lamseryn.Range.Digits.{IsDigit, value, Stops, le-value}

-- The loop of `h1_hdr_append_raw`: what is stored when `len` bytes are there, and whether a byte is
-- dropped. The last byte of the buffer is kept for a NUL.
unfoldable pub append_raw : ℕ → ℕ → Bytes → Bytes × Bool
append_raw size len [] = ([], false)
append_raw size len (c ∷ src) =
    let (kept, cut) = append_raw size (len + 1) src in
    if ltb (len + 1) size then (c ∷ kept, cut) else ([], true)

abbrev pub is_ows : ℕ → Bool
is_ows c = c == b' ' || c == b'\t'

-- A text that does not begin with a blank.
abbrev Solid : Bytes → Type 0
Solid [] = Unit {0}
Solid (c ∷ s) = is_ows c ≡ false

abbrev pub to_lower : ℕ → ℕ
to_lower c = if leb b'A' c && leb c b'Z' then c + 32 else c

-- The loop of `h1_hdr_append_lower`, which stops when the buffer is full.
unfoldable pub append_lower : ℕ → ℕ → Bytes → Bytes
append_lower size len [] = []
append_lower size len (c ∷ src) =
    let rest = append_lower size (len + 1) src in
    if ltb (len + 1) size then to_lower c ∷ rest else []

-- `h1_hdr_append_lower` on what the buffer holds.
unfoldable pub hdr_append_lower : ℕ → Bytes → Bytes → Bytes
unfolding append_lower
hdr_append_lower size dst src = dst ++ append_lower size (length dst) src

unfoldable pub skip_ows : Bytes → Bytes
skip_ows [] = []
skip_ows (c ∷ s) = if is_ows c then skip_ows s else c ∷ s

-- The digits: `none` when the value does not fit, and otherwise the value, how many digits were
-- read, and what follows them.
unfoldable pub read_digits : ℕ → ℕ → Bytes → Option (ℕ × ℕ × Bytes)
read_digits v digits [] = some (v, digits, [])
read_digits v digits (c ∷ s) =
    let d = c - b'0' in
    let rest = read_digits (v * 10 + d) (digits + 1) s in
    if is_digit c
    then if ltb ((uint64_max - d) / 10) v then none else rest
    else some (v, digits, c ∷ s)

abbrev pub after_digits : ℕ → ℕ → Bytes → Option ℕ
after_digits v digits rest =
    if digits == 0 then none else if length (skip_ows rest) == 0 then some v else none

-- `h1_parse_u64_ows_decimal`; `none` is the result -1.
unfoldable pub parse_u64_ows_decimal : Bytes → Option ℕ
unfolding skip_ows read_digits
parse_u64_ows_decimal s =
    let t = skip_ows s in
    if length t == 0 then none else elim (read_digits 0 0 t) [
      | none ↦ none
      | some (v, digits, rest) ↦ after_digits v digits rest
    ]

-- The value of a header, as `on_header_value` calls for it.
bad_length : parse_u64_ows_decimal (codes " 12 3") ≡ none
unfolding parse_u64_ows_decimal
bad_length = refl

pub take-cons : (n x : ℕ) (s : Bytes) → 0 < n → take n (x ∷ s) ≡ x ∷ take (n - 1) s
take-cons ℕ.zero x s h = absurd (omega arith)
take-cons (ℕ.suc n) x s h = ap (λ k. x ∷ take k s) (omega arith)

pub take-nil : (n : ℕ) → take {A = ℕ} n [] ≡ []
take-nil ℕ.zero = refl
take-nil (ℕ.suc n) = refl

pub take-none : (n : ℕ) (s : Bytes) → n ≡ 0 → take n s ≡ []
take-none n s h = rw h refl

abbrev pub lowered : Bytes → Bytes
lowered [] = []
lowered (c ∷ s) = to_lower c ∷ lowered s

append_lower-take :
    (size len : ℕ) (s : Bytes) → append_lower size len s ≡ take (size - 1 - len) (lowered s)
unfolding append_lower
append_lower-take size len [] = sym (take-nil (size - 1 - len))
append_lower-take size len (c ∷ s) = elim (Bool-cases (ltb (len + 1) size)) [
  | inl room ↦
      rw
        (
          room,
          take-cons (size - 1 - len) (to_lower c) (lowered s) (omega (tests, room)),
          append_lower-take size (len + 1) s,
        )
        (ap (λ n. to_lower c ∷ take n (lowered s)) (omega arith))
  | inr full ↦
      rw full (sym (take-none (size - 1 - len) (to_lower c ∷ lowered s) (ground (arith, full))))
]

skip_ows-Solid : (ws t : Bytes) → All (λ c. is_ows c ≡ true) ws → Solid t → skip_ows (ws ++ t) ≡ t
unfolding skip_ows
skip_ows-Solid [] [] h solid = refl
skip_ows-Solid [] (c ∷ t) h solid = rw solid refl
skip_ows-Solid (c ∷ ws) t h solid = rw (h.0, skip_ows-Solid ws t h.1 solid) refl

read_digits-value :
    (ds rest : Bytes) (v digits : ℕ)
    → All IsDigit ds
    → Stops rest
    → v ≤ uint64_max
    → read_digits v digits (ds ++ rest)
      ≡ (if leb (value v ds) uint64_max then some (value v ds, digits + length ds, rest) else none)
unfolding read_digits
read_digits-value [] [] v digits all stop fits = ground arith
read_digits-value [] (c ∷ rest) v digits all stop fits = ground arith
read_digits-value (c ∷ ds) rest v digits all stop fits =
    elim (Bool-cases (ltb uint64_max (v * 10 + (c - b'0')))) [
      | inl over ↦ ground (arith, over, le-value ds (v * 10 + (c - b'0')))
      | inr fit ↦ ground (
        arith,
        fit,
        read_digits-value ds rest (v * 10 + (c - b'0')) (digits + 1) all.1 stop
            (ground (arith, fit)),
      )
    ]

pub take-take-append :
    (n : ℕ) (t u : Bytes) → take n t ++ take (n - length (take n t)) u ≡ take n (t ++ u)
take-take-append ℕ.zero t u = refl
take-take-append (ℕ.suc n) [] u =
    let all : ℕ.suc n - 0 ≡ ℕ.suc n = omega arith in ap (λ k. take k u) all
take-take-append (ℕ.suc n) (x ∷ t) u =
    let fewer : ℕ.suc n - length (x ∷ take n t) ≡ n - length (take n t) = omega arith in
    ap (λ k. x ∷ take n t ++ take k u) fewer ∙ ap (◌∷◌ x) (take-take-append n t u)

pub append_step :
    (size : ℕ) (t src : Bytes)
    → hdr_append_lower size (take (size - 1) t) src ≡ take (size - 1) (t ++ lowered src)
unfolding hdr_append_lower
append_step size t src =
    rw (append_lower-take size (length (take (size - 1) t)) src)
      (take-take-append (size - 1) t (lowered src))

pub lowered-append : (a b : Bytes) → lowered (a ++ b) ≡ lowered a ++ lowered b
lowered-append [] b = refl
lowered-append (c ∷ a) b = ap (◌∷◌ (to_lower c)) (lowered-append a b)

append_pieces :
    (size : ℕ) (pieces : List Bytes) (t : Bytes)
    → foldl (hdr_append_lower size) (take (size - 1) t) pieces
      ≡ take (size - 1) (t ++ lowered (flatten pieces))
unfolding flatten
append_pieces size [] t = ap (take (size - 1)) (sym (append-nil t))
append_pieces size (p ∷ pieces) t =
    rw (append_step size t p, append_pieces size pieces (t ++ lowered p))
      (ap (take (size - 1)) (
        append_assoc t (lowered p) (lowered (flatten pieces))
        ∙ ap (λ s. t ++ s) (sym (lowered-append p (flatten pieces)))))

-- However a header's text arrives in pieces, the buffer holds the text in lower case, up to one byte
-- less than its size; what is beyond is dropped.
pub hdr_append_lower_lem :
    (size : ℕ) (pieces : List Bytes)
    → foldl (hdr_append_lower size) [] pieces ≡ take (size - 1) (lowered (flatten pieces))
hdr_append_lower_lem size pieces =
    ap (λ t. foldl (hdr_append_lower size) t pieces) (sym (take-nil (size - 1)))
    ∙ append_pieces size pieces []

abbrev pub IsOws : ℕ → Type 0
IsOws c = is_ows c ≡ true

ows-Stops : (ws : Bytes) → All IsOws ws → Stops ws
ows-Stops [] h = tt
ows-Stops (c ∷ ws) h = ground arith

digits-Solid : (ds ws : Bytes) → ds ≢ [] → All IsDigit ds → Solid (ds ++ ws)
digits-Solid [] ws ne h = absurd (ne refl)
digits-Solid (c ∷ ds) ws ne h = ground arith

skip_ows-All : (ws : Bytes) → All IsOws ws → skip_ows ws ≡ []
unfolding skip_ows
skip_ows-All [] h = refl
skip_ows-All (c ∷ ws) h = rw (h.0, skip_ows-All ws h.1) refl

parsed_from :
    (s t : Bytes)
    → skip_ows s ≡ t
    → 0 < length t
    → parse_u64_ows_decimal s ≡ elim (read_digits 0 0 t) [
      | none ↦ none
      | some (v, digits, rest) ↦ after_digits v digits rest
    ]
unfolding parse_u64_ows_decimal
parsed_from s t e pos = rw e (ground arith)

-- A run of digits with blanks around it is read as its value, if that fits a uint64_t, and refused
-- otherwise.
pub parse_u64_ows_decimal-digits :
    (ws ds us : Bytes)
    → All IsOws ws
    → ds ≢ []
    → All IsDigit ds
    → All IsOws us
    → parse_u64_ows_decimal (ws ++ (ds ++ us))
      ≡ (if leb (value 0 ds) uint64_max then some (value 0 ds) else none)
parse_u64_ows_decimal-digits ws [] us before ne all after = absurd (ne refl)
parse_u64_ows_decimal-digits ws (c ∷ ds) us before ne all after =
    parsed_from (ws ++ ((c ∷ ds) ++ us)) ((c ∷ ds) ++ us)
      (skip_ows-Solid ws ((c ∷ ds) ++ us) before (digits-Solid (c ∷ ds) us ne all)) (omega arith)
    ∙ ground (
      arith,
      read_digits-value (c ∷ ds) us 0 0 all (ows-Stops us after) (omega arith),
      skip_ows-All us after,
    )
