-- ===== src/Url/Normalize.antt =====
-- `url_path_normalize_absolute` (url.c). Of the array `out` the model keeps the bytes before
-- offset `o`: those from `o` on are written before they are read again.
use lamseryn.Prelude.{
  ℕ, zero, suc, ◌+◌, ◌-◌, Bool, true, false, ◌&&◌, Option, none, some, List, [], ◌∷◌, ◌++◌, ◌≡◌,
  refl, Bytes, codes, ltb, leb, ◌==◌, if◌then◌else◌, length, get_or, take,
}
use lamseryn.Url.{Result, ok, invalid, overflow}

infixl 5 ◌>>=◌
abbrev pub ◌>>=◌ {ℓ κ} : {A : Type ℓ} {B : Type κ} → Result A → (A → Result B) → Result B
ok a >>= f = f a
invalid >>= f = invalid
overflow >>= f = overflow

-- `out[0..o)` and `seg_starts[0..seg_count)`, the last entry first.
pub record Output : Type 0 where
  pub out : Bytes
  pub seg_starts : List ℕ

abbrev pub seg_cap : ℕ
seg_cap = 256

unfoldable pub skip_slashes : Bytes → Bytes
skip_slashes [] = []
skip_slashes (c ∷ s) = if c == b'/' then skip_slashes s else c ∷ s

-- The bytes up to the next slash, and the rest from that slash on.
unfoldable pub take_segment : Bytes → Bytes × Bytes
take_segment [] = ([], [])
take_segment (c ∷ s) =
    let (seg, rest) = take_segment s in if c == b'/' then ([], c ∷ s) else (c ∷ seg, rest)

abbrev pub is_dot : Bytes → Bool
is_dot (a ∷ []) = a == b'.'
is_dot _ = false

abbrev pub is_dot_dot : Bytes → Bool
is_dot_dot (a ∷ b ∷ []) = a == b'.' && b == b'.'
is_dot_dot _ = false

-- The `..` branch.
unfoldable pub pop_segment : Bytes → List ℕ → Output
pop_segment out [] = record { out = out; seg_starts = [] }
pop_segment out (start ∷ starts) = record {
  out = take (if ltb 1 start && get_or out (start - 1) 0 == b'/' then start - 1 else start) out;
  seg_starts = starts;
}

-- The separator that stands before every segment but the first.
unfoldable pub add_separator : ℕ → Bytes → Result Bytes
add_separator cap out =
    if ltb 1 (length out)
    then if ltb cap (length out + 1) then overflow else ok (out ++ b'/' ∷ [])
    else ok out

unfoldable pub store_segment : ℕ → Bytes → Bytes → List ℕ → Result Output
store_segment cap seg out starts =
    if leb seg_cap (length starts)
    then invalid
    else if ltb cap (length out + length seg)
    then overflow
    else ok (record { out = out ++ seg; seg_starts = length out ∷ starts })

unfoldable pub push_segment : ℕ → Bytes → Output → Result Output
unfolding add_separator store_segment
push_segment cap seg st = do out ← add_separator cap st.out; store_segment cap seg out st.seg_starts

unfoldable pub put_segment : ℕ → Bytes → Output → Result Output
unfolding pop_segment push_segment
put_segment cap seg st =
    if is_dot seg
    then ok st
    else if is_dot_dot seg
    then ok (pop_segment st.out st.seg_starts)
    else push_segment cap seg st

-- The outer `while` loop, from `path[i]` on; `none` means that the fuel ran out.
unfoldable pub normalize_from : ℕ → ℕ → Bytes → Output → Option (Result Bytes)
unfolding skip_slashes take_segment put_segment
normalize_from zero cap path st = none
normalize_from (suc fuel) cap path st = elim (skip_slashes path) [
  | [] ↦ some (ok st.out)
  | c ∷ s ↦
      let (seg, rest) = take_segment (c ∷ s) in
      elim (put_segment cap seg st) [
        | ok st' ↦ normalize_from fuel cap rest st'
        | invalid ↦ some invalid
        | overflow ↦ some overflow
      ]
]

-- The end of the function: `o == 0` and `o == 1`.
abbrev pub finish : Result Bytes → Bool → Result (Bytes × Bool)
finish invalid slash = invalid
finish overflow slash = overflow
finish (ok out) slash =
    if length out == 0
    then invalid
    else if length out == 1
    then ok (b'/' ∷ [], slash)
    else ok (out, slash)

-- The normalised path, and whether the path ends with a slash. Each round of the loop reads a byte,
-- so the length of the path is enough fuel.
unfoldable pub path_normalize_absolute : Bytes → ℕ → Option (Result (Bytes × Bool))
unfolding normalize_from
path_normalize_absolute [] out_cap = some invalid
path_normalize_absolute (c ∷ path) out_cap =
    if out_cap == 0
    then some invalid
    else if c == b'/'
    then elim (normalize_from (suc (length path)) out_cap path
        (record { out = b'/' ∷ []; seg_starts = [] })) [
          | none ↦ none
          | some r ↦ some (finish r (get_or (c ∷ path) (length (c ∷ path) - 1) 0 == b'/'))
        ]
    else some invalid

resolves : path_normalize_absolute (codes "/a//./b/../c/") 64 ≡ some (ok (codes "/a/c", true))
unfolding path_normalize_absolute
resolves = refl

stays_inside : path_normalize_absolute (codes "/../../etc") 64 ≡ some (ok (codes "/etc", false))
unfolding path_normalize_absolute
stays_inside = refl
