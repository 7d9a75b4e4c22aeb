-- ===== src/Url/Scan.antt =====
-- The two inner loops of `url_path_normalize_absolute` (url.c) cut a path as its segments do.
use lamseryn.Prelude.{
  ℕ, ◌+◌, ◌≤◌, false, [], ◌∷◌, ◌++◌, ◌≡◌, ◌≢◌, ◌⊎◌, refl, sym, ap, ◌∙◌, arith, Bytes, ◌==◌, length,
  All, append-nil, append_assoc, Bool-cases, inl, inr,
}
use mathlib.Core.List.{cons-ne-nil}
use lamseryn.Url.Normalize.{skip_slashes, take_segment}
use lamseryn.Url.Segments.{close_segment, segments_from, IsSegment}

abbrev pub StartsSlash : Bytes → Type 0
StartsSlash [] = Unit {0}
StartsSlash (c ∷ s) = c ≡ b'/'

pub segments-skip : (s : Bytes) → segments_from [] (skip_slashes s) ≡ segments_from [] s
unfolding skip_slashes segments_from
segments-skip [] = refl
segments-skip (c ∷ s) = ground (arith, segments-skip s)

pub length-skip : (s : Bytes) → length (skip_slashes s) ≤ length s
unfolding skip_slashes
length-skip [] = omega arith
length-skip (c ∷ s) = ground (arith, length-skip s)

-- What is left after the slashes: nothing, or a text that starts with another byte.
pub skip-cases :
    (s : Bytes)
    → (skip_slashes s ≡ [])
      ⊎ ((c : ℕ) × (r : Bytes) × (skip_slashes s ≡ c ∷ r) × ((c == b'/') ≡ false))
unfolding skip_slashes
skip-cases [] = inl refl
skip-cases (c ∷ s) = elim (Bool-cases (c == b'/')) [
  | inl slash ↦ rw slash (skip-cases s)
  | inr other ↦ inr (c, s, rw other, other)
]

pub length-skip_slash :
    (s : Bytes) → StartsSlash s → s ≢ [] → length (skip_slashes s) + 1 ≤ length s
unfolding skip_slashes
length-skip_slash [] h ne = absurd (ne refl)
length-skip_slash (c ∷ s) h ne = ground (arith, length-skip s)

pub nil-skip : (c : ℕ) (r : Bytes) → skip_slashes [] ≢ c ∷ r
unfolding skip_slashes
nil-skip c r e = cons-ne-nil c r (sym e)

-- What `take_segment` splits off.
pub record Taken (s : Bytes) (r : Bytes × Bytes) : Type 0 where
  pub size : length r.0 + length r.1 ≡ length s
  pub slash : StartsSlash r.1
  pub no_slash : All (λ c. c ≢ b'/') r.0

pub take_segment-Taken : (s : Bytes) → Taken s (take_segment s)
unfolding take_segment
take_segment-Taken [] = record { size = refl; slash = tt; no_slash = tt }
take_segment-Taken (c ∷ s) = elim (Bool-cases (c == b'/')) [
  | inl slash ↦ rw slash (record { size = omega arith; slash = ground arith; no_slash = tt })
  | inr other ↦
      let ih = take_segment-Taken s in
      rw other (record {
        size = omega (arith, ih.size);
        slash = ih.slash;
        no_slash = (ground arith, ih.no_slash);
      })
]

pub segments-take :
    (cur s : Bytes)
    → segments_from cur s
      ≡ close_segment (cur ++ (take_segment s).0) (segments_from [] (take_segment s).1)
unfolding take_segment segments_from
segments-take cur [] = ap (λ t. close_segment t []) (sym (append-nil cur))
segments-take cur (c ∷ s) = elim (Bool-cases (c == b'/')) [
  | inl slash ↦ rw (slash, slash, append-nil)
  | inr other ↦ rw other (
      segments-take (cur ++ c ∷ []) s
      ∙ ap (λ t. close_segment t (segments_from [] (take_segment s).1))
          (append_assoc cur (c ∷ []) (take_segment s).0))
]

-- The first segment of a text that does not start with a slash.
abbrev pub first_segment : ℕ → Bytes → Bytes
first_segment c r = c ∷ (take_segment r).0

pub take-first :
    (c : ℕ) (r : Bytes)
    → (c == b'/') ≡ false
    → take_segment (c ∷ r) ≡ (first_segment c r, (take_segment r).1)
unfolding take_segment
take-first c r h = rw h

pub segments-first :
    (s : Bytes) (c : ℕ) (r : Bytes)
    → skip_slashes s ≡ c ∷ r
    → (c == b'/') ≡ false
    → segments_from [] s ≡ first_segment c r ∷ segments_from [] (take_segment r).1
unfolding segments_from
segments-first s c r e h =
    sym (segments-skip s) ∙ ap (segments_from []) e ∙ rw h (segments-take (c ∷ []) r)

pub segments-none : (s : Bytes) → skip_slashes s ≡ [] → segments_from [] s ≡ []
unfolding segments_from
segments-none s e = sym (segments-skip s) ∙ ap (segments_from []) e

pub first-IsSegment : (c : ℕ) (r : Bytes) → (c == b'/') ≡ false → IsSegment (first_segment c r)
first-IsSegment c r h =
    (cons-ne-nil c (take_segment r).0, (ground arith, (take_segment-Taken r).no_slash))
