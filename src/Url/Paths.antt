-- ===== src/Url/Paths.antt =====
-- What `url_path_normalize_absolute` (url.c) promises its callers.
use lamseryn.Prelude.{
  ℕ, suc, ◌-◌, ◌≤◌, ◌<◌, Bool, Option, none, some, false, List, [], ◌∷◌, ◌≡◌, refl, sym, ap, ◌∙◌,
  arith, Bytes, ◌==◌, length, get_or, All, Bool-cases, Option-cases, inl, inr,
}
use lamseryn.Url.{Result, ok, invalid, overflow}
use lamseryn.Url.Normalize.{normalize_from, finish, path_normalize_absolute}
use lamseryn.Url.Segments.{segments_from, segments, resolve, render, IsName}
use lamseryn.Url.Steps.{repr, length-joined, length-ne-nil}
use lamseryn.Url.Refine.{Sound, normalize_from-Sound, normalize_from-fits}

-- Whether a text ends with a slash.
abbrev pub ends_with_slash : Bytes → Bool
ends_with_slash path = get_or path (length path - 1) 0 == b'/'

finish-render :
    (st : List Bytes) (slash : Bool)
    → All IsName st
    → finish (ok (render st)) slash ≡ ok (render st, slash)
finish-render [] slash names = refl
finish-render (seg ∷ st) slash names =
    ground (arith, length-joined seg st, length-ne-nil seg names.0.not_empty)

segments-slash : (path : Bytes) → segments (b'/' ∷ path) ≡ segments_from [] path
unfolding segments
segments-slash path = refl

-- What the function does with the outcome of its loop.
abbrev complete : Option (Result Bytes) → Bool → Option (Result (Bytes × Bool))
complete none slash = none
complete (some r) slash = some (finish r slash)

path_normalize_absolute-loop :
    (path : Bytes) (out_cap : ℕ)
    → 0 < out_cap
    → path_normalize_absolute (b'/' ∷ path) out_cap
      ≡ complete
          (normalize_from (suc (length path)) out_cap path (repr []))
          (ends_with_slash (b'/' ∷ path))
unfolding path_normalize_absolute
path_normalize_absolute-loop path out_cap h =
    elim (Option-cases (normalize_from (suc (length path)) out_cap path (repr []))) [
      | inl e ↦ ground (arith, e)
      | inr (r, e) ↦ ground (arith, e)
    ]

-- What a result of the normalisation says.
abbrev pub Normalized : Bytes → ℕ → Option (Result (Bytes × Bool)) → Type 0
Normalized path out_cap none = ⊥
Normalized path out_cap (some invalid) = Unit {0}
Normalized path out_cap (some overflow) = Unit {0}
Normalized path out_cap (some (ok (out, slash))) =
    (out ≡ render (resolve [] (segments path)))
    × All IsName (resolve [] (segments path))
    × (length out ≤ out_cap)
    × (slash ≡ ends_with_slash path)

Normalized-complete :
    (path : Bytes) (out_cap : ℕ) (r : Result Bytes)
    → Sound out_cap path [] r
    → Normalized (b'/' ∷ path) out_cap (complete (some r) (ends_with_slash (b'/' ∷ path)))
Normalized-complete path out_cap invalid h = tt
Normalized-complete path out_cap overflow h = tt
Normalized-complete path out_cap (ok out) (eq, names, room) =
    let stack = resolve [] (segments_from [] path) in
    rw (eq, finish-render stack (ends_with_slash (b'/' ∷ path)) names, segments-slash path)
      (refl, names, rw (← eq) room, refl)

path_normalize_absolute-zero :
    (path : Bytes) (out_cap : ℕ) → out_cap ≡ 0 → path_normalize_absolute path out_cap ≡ some invalid
unfolding path_normalize_absolute
path_normalize_absolute-zero [] out_cap h = refl
path_normalize_absolute-zero (c ∷ path) out_cap h = rw h

path_normalize_absolute-relative :
    (c : ℕ) (path : Bytes) (out_cap : ℕ)
    → (c == b'/') ≡ false
    → path_normalize_absolute (c ∷ path) out_cap ≡ some invalid
unfolding path_normalize_absolute
path_normalize_absolute-relative c path out_cap h = rw h (ground arith)

Sound-names :
    (out_cap : ℕ) (s : Bytes) (st : List Bytes) (r : Result Bytes) (out : Bytes)
    → some r ≡ some (ok out)
    → Sound out_cap s st r
    → All IsName (resolve st (segments_from [] s))
Sound-names out_cap s st (ok o) out e h = h.1
Sound-names out_cap s st invalid out e h = cc
Sound-names out_cap s st overflow out e h = cc

-- The normalisation always returns. A path that it returns is the path's segments resolved, with
-- `.` and `..` gone: every segment is a name, so the path does not leave the root. It fits the
-- buffer, and the flag tells whether the path ended with a slash.
pub path_normalize_absolute-Normalized :
    (path : Bytes) (out_cap : ℕ) → Normalized path out_cap (path_normalize_absolute path out_cap)
path_normalize_absolute-Normalized [] out_cap = unfold path_normalize_absolute in tt
path_normalize_absolute-Normalized (c ∷ path) out_cap = elim (Bool-cases (out_cap == 0)) [
  | inl zero_cap ↦ rw (path_normalize_absolute-zero (c ∷ path) out_cap (ground arith)) tt
  | inr pos ↦ elim (Bool-cases (c == b'/')) [
    | inl slash ↦
        let (r, eq, sound) =
          normalize_from-Sound (suc (length path)) out_cap path [] (omega arith) tt
            (ground arith) in
        let at_slash : c ≡ b'/' = ground arith in
        rw (at_slash, path_normalize_absolute-loop path out_cap (ground arith), eq)
          (Normalized-complete path out_cap r sound)
    | inr other ↦ rw (path_normalize_absolute-relative c path out_cap other) tt
  ]
]

-- An absolute path that fits the buffer and has at most 256 segments is normalised without error.
pub path_normalize_absolute-fits :
    (path : Bytes) (out_cap : ℕ)
    → length (b'/' ∷ path) ≤ out_cap
    → length (segments (b'/' ∷ path)) ≤ 256
    → path_normalize_absolute (b'/' ∷ path) out_cap
      ≡ some (ok (render (resolve [] (segments (b'/' ∷ path))), ends_with_slash (b'/' ∷ path)))
path_normalize_absolute-fits path out_cap room deep =
    let loop =
      normalize_from-fits (suc (length path)) out_cap path [] (omega arith) tt (inr refl)
        (omega arith) (omega (arith, ap length (segments-slash path))) in
    let (r, eq, sound) =
      normalize_from-Sound (suc (length path)) out_cap path [] (omega arith) tt (omega arith) in
    let same : some r ≡ some (ok (render (resolve [] (segments_from [] path)))) = sym eq ∙ loop in
    let names = Sound-names out_cap path [] r _ same sound in
    rw (path_normalize_absolute-loop path out_cap (omega arith), loop, segments-slash path)
      (ap some
        (finish-render (resolve [] (segments_from [] path)) (ends_with_slash (b'/' ∷ path)) names))
