-- ===== src/Range/Digits.antt =====
-- `parse_u64` (http_range.c) reads the true value of a run of digits, or refuses it.
use lamseryn.Prelude.{
  ℕ, ◌+◌, ◌-◌, ◌*◌, ◌≤◌, Bool, true, false, none, some, [], ◌∷◌, ◌++◌, ◌≡◌, ◌≢◌, refl, arith, Bytes,
  ltb, leb, if◌then◌else◌, All, length-append,
}
use mathlib.Core.List.{foldl}
use lamseryn.Range.{uint64_max, is_digit, scan_u64, parse_u64}

abbrev pub IsDigit : ℕ → Type 0
IsDigit c = is_digit c ≡ true

-- The number that digits spell behind `n`, with no bound.
abbrev pub value : ℕ → Bytes → ℕ
value = foldl (λ n c. n * 10 + (c - b'0'))

-- A text that does not go on with a digit.
abbrev pub Stops : Bytes → Type 0
Stops [] = Unit {0}
Stops (c ∷ s) = is_digit c ≡ false

pub le-value : (ds : Bytes) (n : ℕ) → n ≤ value n ds
le-value [] n = omega arith
le-value (c ∷ ds) n = omega (arith, le-value ds (n * 10 + (c - b'0')))

scan_u64-stop : (rest : Bytes) (n : ℕ) → Stops rest → scan_u64 rest n ≡ some (n, rest)
unfolding scan_u64
scan_u64-stop [] n h = refl
scan_u64-stop (c ∷ rest) n h = rw h

abbrev overflows : ℕ → ℕ → Bool
overflows n c = ltb uint64_max (n * 10 + (c - b'0'))

-- One round of the loop: the overflow test of the code is exact.
scan_u64-digit :
    (c : ℕ) (s : Bytes) (n : ℕ)
    → n ≤ uint64_max
    → IsDigit c
    → scan_u64 (c ∷ s) n ≡ (if overflows n c then none else scan_u64 s (n * 10 + (c - b'0')))
unfolding scan_u64
scan_u64-digit c s n fits digit = ground arith

scan_u64-digits :
    (ds rest : Bytes) (n : ℕ)
    → All IsDigit ds
    → Stops rest
    → n ≤ uint64_max
    → scan_u64 (ds ++ rest) n
      ≡ (if leb (value n ds) uint64_max then some (value n ds, rest) else none)
scan_u64-digits [] rest n all stop fits = ground (arith, scan_u64-stop rest n stop)
scan_u64-digits (c ∷ ds) rest n all stop fits = ground (
  arith,
  scan_u64-digit c (ds ++ rest) n fits all.0,
  scan_u64-digits ds rest (n * 10 + (c - b'0')) all.1 stop,
  le-value ds (n * 10 + (c - b'0')),
)

-- A run of at least one digit that is not followed by another is read as its value, if that fits a
-- uint64_t, and refused otherwise.
pub parse_u64-digits :
    (ds rest : Bytes)
    → ds ≢ []
    → All IsDigit ds
    → Stops rest
    → parse_u64 (ds ++ rest)
      ≡ (if leb (value 0 ds) uint64_max then some (value 0 ds, rest) else none)
unfolding parse_u64
parse_u64-digits [] rest ne all stop = absurd (ne refl)
parse_u64-digits (c ∷ ds) rest ne all stop =
    ground (arith, scan_u64-digits (c ∷ ds) rest 0 all stop (omega arith), length-append ds rest)
