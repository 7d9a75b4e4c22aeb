-- ===== src/Url/Refine.antt =====
-- Path normalisation (url.c) refines the resolution of segments on a stack.
use lamseryn.Prelude.{
  ℕ, zero, suc, ◌+◌, ◌≤◌, ◌<◌, false, Option, some, List, [], ◌∷◌, ◌≡◌, ◌⊎◌, refl, ap, ◌∙◌, arith,
  Bytes, ◌==◌, length, All, inl, inr,
}
use mathlib.Core.List.{cons-ne-nil}
use lamseryn.Url.{Result, ok, invalid, overflow}
use lamseryn.Url.Normalize.{Output, skip_slashes, take_segment, put_segment, normalize_from}
use lamseryn.Url.Segments.{segments_from, enter, resolve, joined, render, IsName}
use lamseryn.Url.Scan.{
  StartsSlash, skip-cases, nil-skip, length-skip, length-skip_slash, take_segment-Taken,
  first_segment, take-first, segments-first, segments-none, first-IsSegment,
}
use lamseryn.Url.Steps.{
  repr, length-joined, render-rest, enter-names, put_segment-ok, put_segment-fits,
}

normalize-end :
    (fuel out_cap : ℕ) (s : Bytes) (st : Output)
    → skip_slashes s ≡ []
    → normalize_from (suc fuel) out_cap s st ≡ some (ok st.out)
unfolding normalize_from
normalize-end fuel out_cap s st e = rw (e, normalize_from)

module _ (fuel out_cap : ℕ) (s : Bytes) (st : Output) (c : ℕ) (r : Bytes) where
  normalize-step :
      (st' : Output)
      → skip_slashes s ≡ c ∷ r
      → (c == b'/') ≡ false
      → put_segment out_cap (first_segment c r) st ≡ ok st'
      → normalize_from (suc fuel) out_cap s st ≡ normalize_from fuel out_cap (take_segment r).1 st'
  unfolding normalize_from
  normalize-step st' e h put = rw (e, normalize_from, take-first c r h, put, take-first c r h)

  normalize-fails :
      skip_slashes s ≡ c ∷ r
      → (c == b'/') ≡ false
      → (put_segment out_cap (first_segment c r) st ≡ invalid)
        ⊎ (put_segment out_cap (first_segment c r) st ≡ overflow)
      → (normalize_from (suc fuel) out_cap s st ≡ some invalid)
        ⊎ (normalize_from (suc fuel) out_cap s st ≡ some overflow)
  unfolding normalize_from
  normalize-fails e h (inl put) = inl (rw (e, normalize_from, take-first c r h, put))
  normalize-fails e h (inr put) = inr (rw (e, normalize_from, take-first c r h, put))

-- The result at a stack: the rendered stack of all segments, within the buffer, or an error.
abbrev pub Sound : ℕ → Bytes → List Bytes → Result Bytes → Type 0
Sound out_cap s st (ok out) =
    (out ≡ render (resolve st (segments_from [] s)))
    × All IsName (resolve st (segments_from [] s))
    × (length out ≤ out_cap)
Sound out_cap s st invalid = Unit {0}
Sound out_cap s st overflow = Unit {0}

put-cases : (r : Result Output) → ((a : Output) × (r ≡ ok a)) ⊎ ((r ≡ invalid) ⊎ (r ≡ overflow))
put-cases (ok a) = inl (a, refl)
put-cases invalid = inr (inl refl)
put-cases overflow = inr (inr refl)

-- A result that is sound from the next segment on is sound.
Sound-first :
    (out_cap : ℕ) (s : Bytes) (st : List Bytes) (seg rest : Bytes) (r : Result Bytes)
    → segments_from [] s ≡ seg ∷ segments_from [] rest
    → Sound out_cap rest (enter seg st) r
    → Sound out_cap s st r
Sound-first out_cap s st seg rest (ok out) e h = rw e h
Sound-first out_cap s st seg rest invalid e h = tt
Sound-first out_cap s st seg rest overflow e h = tt

length-rest :
    (s : Bytes) (c : ℕ) (r : Bytes)
    → skip_slashes s ≡ c ∷ r
    → length (first_segment c r) + length (take_segment r).1 ≤ length s
length-rest s c r e = omega (arith, ap length e, length-skip s, (take_segment-Taken r).size)

normalize-error :
    (out_cap : ℕ) (s : Bytes) (st : List Bytes) (m : Option (Result Bytes))
    → (m ≡ some invalid) ⊎ (m ≡ some overflow)
    → (r : Result Bytes) × (m ≡ some r) × Sound out_cap s st r
normalize-error out_cap s st m (inl e) = (invalid, e, tt)
normalize-error out_cap s st m (inr e) = (overflow, e, tt)

-- The loop ends, and its result is sound.
pub normalize_from-Sound :
    (fuel out_cap : ℕ) (s : Bytes) (st : List Bytes)
    → length s < fuel
    → All IsName st
    → length (render st) ≤ out_cap
    → (r : Result Bytes) × (normalize_from fuel out_cap s (repr st) ≡ some r) × Sound out_cap s st r
normalize_from-Sound zero out_cap s st lt names room = absurd (omega arith)
normalize_from-Sound (suc fuel) out_cap s st lt names room = elim (skip-cases s) [
  | inl e ↦ (
    ok (render st),
    normalize-end fuel out_cap s (repr st) e,
    (rw (segments-none s e), rw (segments-none s e) names, room),
  )
  | inr (c, r, e, h) ↦ elim (put-cases (put_segment out_cap (first_segment c r) (repr st))) [
    | inl (st', put) ↦
        let seg = first_segment c r in
        let rest = (take_segment r).1 in
        let done = put_segment-ok out_cap seg st st' names room put in
        let (res, eq, sound) =
          normalize_from-Sound fuel out_cap rest (enter seg st) (omega (arith, length-rest s c r e))
            (enter-names seg st (first-IsSegment c r h) names) done.within in
        (
          res,
          normalize-step fuel out_cap s (repr st) c r st' e h put
              ∙ ap (normalize_from fuel out_cap rest) done.holds
              ∙ eq,
          Sound-first out_cap s st seg rest res (segments-first s c r e h) sound,
        )
    | inr bad ↦
        normalize-error out_cap s st (normalize_from (suc fuel) out_cap s (repr st))
          (normalize-fails fuel out_cap s (repr st) c r e h bad)
  ]
]

-- The text with one more segment, and with the rest of the path, still fits.
joined-room :
    (out_cap : ℕ) (s : Bytes) (st : List Bytes) (c : ℕ) (r : Bytes)
    → skip_slashes s ≡ c ∷ r
    → StartsSlash s ⊎ (st ≡ [])
    → length (render st) + length s ≤ out_cap
    → length (joined (first_segment c r ∷ st)) + length (take_segment r).1 ≤ out_cap
joined-room out_cap s [] c r e shape room = omega (arith, length-rest s c r e)
joined-room out_cap s (t ∷ st) c r e (inr none_yet) room = absurd (cons-ne-nil t st none_yet)
joined-room out_cap [] (t ∷ st) c r e (inl slash) room = absurd (nil-skip c r e)
joined-room out_cap (d ∷ s) (t ∷ st) c r e (inl slash) room = omega (
  arith,
  ap length e,
  length-skip_slash (d ∷ s) slash (cons-ne-nil d s),
  (take_segment-Taken r).size,
  length-joined (first_segment c r) (t ∷ st),
)

length-render-enter :
    (n k out_cap : ℕ) (seg : Bytes) (st : List Bytes)
    → length (render st) + n ≤ out_cap
    → length (joined (seg ∷ st)) + n ≤ out_cap
    → length (render (enter seg st)) + n ≤ out_cap
length-render-enter n k out_cap seg st h g = ground (arith, render-rest st)

length-enter : (seg : Bytes) (st : List Bytes) → length (enter seg st) ≤ length st + 1
length-enter seg [] = ground arith
length-enter seg (t ∷ st) = ground arith

-- The loop succeeds on a path that fits the buffer and has at most 256 segments.
pub normalize_from-fits :
    (fuel out_cap : ℕ) (s : Bytes) (st : List Bytes)
    → length s < fuel
    → All IsName st
    → StartsSlash s ⊎ (st ≡ [])
    → length (render st) + length s ≤ out_cap
    → length st + length (segments_from [] s) ≤ 256
    → normalize_from fuel out_cap s (repr st) ≡ some (ok (render (resolve st (segments_from [] s))))
normalize_from-fits zero out_cap s st lt names shape room deep = absurd (omega arith)
normalize_from-fits (suc fuel) out_cap s st lt names shape room deep = elim (skip-cases s) [
  | inl e ↦ rw (segments-none s e) (normalize-end fuel out_cap s (repr st) e)
  | inr (c, r, e, h) ↦
      let seg = first_segment c r in
      let rest = (take_segment r).1 in
      let segs = segments-first s c r e h in
      let grown = joined-room out_cap s st c r e shape room in
      let put =
        put_segment-fits out_cap seg st names
          (omega (arith, ap length segs), omega (arith, grown)) in
      rw segs (
        normalize-step fuel out_cap s (repr st) c r (repr (enter seg st)) e h put
        ∙ normalize_from-fits fuel out_cap rest (enter seg st) (omega (arith, length-rest s c r e))
            (enter-names seg st (first-IsSegment c r h) names) (inl (take_segment-Taken r).slash)
            (length-render-enter (length rest) 0 out_cap seg st (omega (arith, length-rest s c r e))
              grown)
            (omega (arith, ap length segs, length-enter seg st)))
]
