-- ===== src/Range/Resolve.antt =====
-- Which bytes of a file a resolved range serves.
use lamseryn.Prelude.{ℕ, ◌+◌, ◌-◌, ◌≤◌, ◌<◌, Bool, true, false, ◌↔◌, ◌≡◌, arith}
use lamseryn.Range.{ByteRange, ResolvedRange, http_range_resolve, uint64_max}

-- Byte `k` of a file of the given size is asked for: it is one of the last `first` bytes, or lies
-- between the two offsets.
abbrev pub Selects : Bool → ℕ → ℕ → ℕ → ℕ → Type 0
Selects true first last size k = (k < size) × (size ≤ k + first)
Selects false first last size k = (k < size) × (first ≤ k) × (k ≤ last)

abbrev pub Serves : ResolvedRange → ℕ → Type 0
Serves rr k = (rr.satisfiable ≡ true) × (rr.start ≤ k) × (k ≤ rr.end)

-- What the parser leaves in a valid range.
pub record IsWellFormed (br : ByteRange) : Type 0 where
  pub first_fits : br.first ≤ uint64_max
  pub last_fits : br.last ≤ uint64_max
  pub some_suffix : br.suffix ≡ true → 0 < br.first
  pub ordered : br.suffix ≡ false → br.first ≤ br.last

abbrev pub range_of : Bool → ℕ → ℕ → ByteRange
range_of suffix first last = record { valid = true; suffix = suffix; first = first; last = last }

Serves-Selects :
    (suffix : Bool) (first last size k : ℕ)
    → size ≤ uint64_max
    → last ≤ uint64_max
    → Serves (http_range_resolve (range_of suffix first last) size) k
    → Selects suffix first last size k
unfolding http_range_resolve
Serves-Selects true first last size k big bound h = ground arith
Serves-Selects false first last size k big bound h = ground arith

Selects-Serves :
    (suffix : Bool) (first last size k : ℕ)
    → size ≤ uint64_max
    → last ≤ uint64_max
    → Selects suffix first last size k
    → Serves (http_range_resolve (range_of suffix first last) size) k
unfolding http_range_resolve
Selects-Serves true first last size k big bound h = ground arith
Selects-Serves false first last size k big bound h = ground arith

-- For a file size and a last position that fit a uint64_t, the range resolved for the file serves
-- exactly the bytes that the parsed range asks for.
pub http_range_resolve_exact :
    (suffix : Bool) (first last size k : ℕ)
    → size ≤ uint64_max
    → last ≤ uint64_max
    → Serves (http_range_resolve (range_of suffix first last) size) k
      ↔ Selects suffix first last size k
http_range_resolve_exact suffix first last size k big bound = (
  Serves-Selects suffix first last size k big bound,
  Selects-Serves suffix first last size k big bound,
)

-- What holds of a served range: it lies within the file, is not empty, and its length is exact.
pub record IsWithin (rr : ResolvedRange) (size : ℕ) : Type 0 where
  pub ordered : rr.start ≤ rr.end
  pub in_file : rr.end < size
  pub exact : rr.length ≡ rr.end - rr.start + 1

pub http_range_resolve-IsWithin :
    (br : ByteRange) (size : ℕ)
    → IsWellFormed br
    → size ≤ uint64_max
    → (http_range_resolve br size).satisfiable ≡ true
    → IsWithin (http_range_resolve br size) size
unfolding http_range_resolve
http_range_resolve-IsWithin br size wf big h = ground arith
