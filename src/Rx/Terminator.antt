-- ===== src/Rx/Terminator.antt =====
-- An independent description of the end of a header block, and the proof that the sliding window
-- of src/http_boundary.c finds it.
use lamseryn.Prelude.{
  ℕ, suc, ◌+◌, ◌-◌, ◌≤◌, Bool, true, false, ◌&&◌, Option, none, some, [], ◌∷◌, ◌++◌, ◌≡◌, refl, sym,
  ◌∙◌, ◌↔◌, ap, arith, Bytes, ltb, ◌==◌, if◌then◌else◌, inl, inr, Bool-cases, Option-cases, length,
  length-append,
}
use mathlib.Core.Option
use lamseryn.Rx.Boundary.{no_bytes, scan, find_header_terminator_end}

abbrev pub crlf_crlf : Bytes
crlf_crlf = b'\r' ∷ b'\n' ∷ b'\r' ∷ b'\n' ∷ []

-- Whether the text begins with the terminator.
unfoldable pub starts : Bytes → Bool
starts (a ∷ b ∷ c ∷ d ∷ r) = a == b'\r' && (b == b'\n' && (c == b'\r' && d == b'\n'))
starts _ = false

-- The offset just past the first terminator of a text.
unfoldable pub first_end : Bytes → Option ℕ
first_end [] = none
first_end (c ∷ s) = if starts (c ∷ s) then some 4 else Option.map suc (first_end s)

-- From three bytes on, the loop with those bytes in its window looks for the first terminator of
-- the text that they begin.
scan-first_end :
    (s : Bytes) (i a b c z : ℕ)
    → 3 ≤ i
    → scan s i (record { w0 = z; w1 = a; w2 = b; w3 = c })
      ≡ Option.map (λ e. e + i - 3) (first_end (a ∷ b ∷ c ∷ s))
unfolding scan first_end starts
scan-first_end [] i a b c z h = ground arith
scan-first_end (d ∷ s) i a b c z h = ground (arith, scan-first_end s (i + 1) b c d a)

from_start : (s : Bytes) → (if ltb (length s) 4 then none else scan s 0 no_bytes) ≡ first_end s
unfolding scan first_end starts
from_start [] = refl
from_start (a ∷ []) = ground arith
from_start (a ∷ b ∷ []) = ground arith
from_start (a ∷ b ∷ c ∷ []) = ground arith
from_start (a ∷ b ∷ c ∷ d ∷ s) = ground (arith, scan-first_end (d ∷ s) 3 a b c 0)

-- The search over a prefix and a buffer finds the first terminator of the two put together.
pub find-first_end : (pre buf : Bytes) → find_header_terminator_end pre buf ≡ first_end (pre ++ buf)
unfolding find_header_terminator_end first_end
find-first_end [] [] = refl
find-first_end [] (b ∷ buf) = ground (arith, from_start (b ∷ buf))
find-first_end (p ∷ pre) buf = ground (arith, from_start (p ∷ pre ++ buf), length-append pre buf)

-- The text has a terminator that ends at `e`.
abbrev pub EndsAt : Bytes → ℕ → Type 0
EndsAt s e =
    (before : Bytes) × (after : Bytes) × (s ≡ before ++ (crlf_crlf ++ after))
    × (e ≡ length before + 4)

starts_sound : (s : Bytes) → starts s ≡ true → (after : Bytes) × (s ≡ crlf_crlf ++ after)
unfolding starts
starts_sound (a ∷ b ∷ c ∷ d ∷ r) h = (r, ground arith)
starts_sound [] h = cc
starts_sound (a ∷ []) h = cc
starts_sound (a ∷ b ∷ []) h = cc
starts_sound (a ∷ b ∷ c ∷ []) h = cc

first_end_sound : (s : Bytes) (e : ℕ) → first_end s ≡ some e → EndsAt s e
unfolding first_end
first_end_sound [] e h = cc
first_end_sound (c ∷ s) e h = elim (Bool-cases (starts (c ∷ s))) [
  | inl now ↦ let (after, eq) = starts_sound (c ∷ s) now in ([], after, eq, ground arith)
  | inr later ↦ elim (Option-cases (first_end s)) [
    | inl missing ↦ ground arith
    | inr (k, found) ↦
        let (before, after, eq, at) = first_end_sound s k found in
        (c ∷ before, after, ap (◌∷◌ c) eq, ground arith)
  ]
]

-- No terminator ends before the one that is found.
first_end_least :
    (before after : Bytes)
    → (e : ℕ) × (first_end (before ++ (crlf_crlf ++ after)) ≡ some e) × (e ≤ length before + 4)
unfolding first_end starts
first_end_least [] after = (4, refl, omega arith)
first_end_least (c ∷ before) after =
    let (k, found, bound) = first_end_least before after in
    elim (Bool-cases (starts (c ∷ before ++ (crlf_crlf ++ after)))) [
      | inl now ↦ (4, ground arith, omega arith)
      | inr later ↦ (suc k, ground arith, omega arith)
    ]

-- `e` is where the header block ends: a terminator ends there, and none ends before.
abbrev pub IsFirstEnd : Bytes → ℕ → Type 0
IsFirstEnd s e = EndsAt s e × ((e' : ℕ) → EndsAt s e' → e ≤ e')

first_end-IsFirstEnd : (s : Bytes) (e : ℕ) → first_end s ≡ some e → IsFirstEnd s e
first_end-IsFirstEnd s e h = (
  first_end_sound s e h,
  λ e' (before, after, eq, at).
      let (k, found, bound) = first_end_least before after in
      let same : some e ≡ some k = sym h ∙ ap first_end eq ∙ found in ground arith,
)

IsFirstEnd-first_end : (s : Bytes) (e : ℕ) → IsFirstEnd s e → first_end s ≡ some e
IsFirstEnd-first_end s e ((before, after, eq, at), least) =
    let (k, found, bound) = first_end_least before after in
    let here : first_end s ≡ some k = ap first_end eq ∙ found in
    let le : e ≤ k = least k (first_end_sound s k here) in here ∙ ap some (omega arith)

-- The search returns `e` exactly when the first terminator of the stream, the prefix followed by
-- the buffer, ends at `e`.
pub find_header_terminator_end_lem :
    (pre buf : Bytes) (e : ℕ)
    → (find_header_terminator_end pre buf ≡ some e) ↔ IsFirstEnd (pre ++ buf) e
find_header_terminator_end_lem pre buf e =
    rw find-first_end (first_end-IsFirstEnd (pre ++ buf) e, IsFirstEnd-first_end (pre ++ buf) e)

first_end-le-length : (s : Bytes) (e : ℕ) → first_end s ≡ some e → e ≤ length s
first_end-le-length s e h =
    let (before, after, eq, at) = first_end_sound s e h in
    omega (arith, ap length eq, at, length-append before (crlf_crlf ++ after))

pub find-le-length :
    (pre buf : Bytes) (e : ℕ)
    → find_header_terminator_end pre buf ≡ some e
    → e ≤ length (pre ++ buf)
find-le-length pre buf e h = first_end-le-length (pre ++ buf) e (sym (find-first_end pre buf) ∙ h)
