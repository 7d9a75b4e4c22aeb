-- ===== src/Url/Segments.antt =====
-- The specification of path normalisation: the segments between slashes, resolved on a stack.
use lamseryn.Prelude.{false, List, [], ◌∷◌, ◌++◌, ◌≡◌, ◌≢◌, refl, Bytes, ◌==◌, if◌then◌else◌, All}
use lamseryn.Url.Normalize.{is_dot, is_dot_dot}

-- The segments of a text that continues an open segment, without the empty ones.
abbrev pub close_segment : Bytes → List Bytes → List Bytes
close_segment [] segs = segs
close_segment (c ∷ cur) segs = (c ∷ cur) ∷ segs

unfoldable pub segments_from : Bytes → Bytes → List Bytes
segments_from cur [] = close_segment cur []
segments_from cur (c ∷ s) =
    if c == b'/' then close_segment cur (segments_from [] s) else segments_from (cur ++ c ∷ []) s

unfoldable pub segments : Bytes → List Bytes
unfolding segments_from
segments s = segments_from [] s

abbrev pub rest_of : List Bytes → List Bytes
rest_of [] = []
rest_of (seg ∷ st) = st

-- `.` stays, `..` goes up, anything else goes down; the stack has the last segment first.
abbrev pub enter : Bytes → List Bytes → List Bytes
enter seg st = if is_dot seg then st else if is_dot_dot seg then rest_of st else seg ∷ st

abbrev pub resolve : List Bytes → List Bytes → List Bytes
resolve st [] = st
resolve st (seg ∷ segs) = resolve (enter seg st) segs

-- A slash before each segment.
abbrev pub joined : List Bytes → Bytes
joined [] = []
joined (seg ∷ st) = joined st ++ b'/' ∷ seg

-- The root is a slash of its own.
abbrev pub render : List Bytes → Bytes
render [] = b'/' ∷ []
render (seg ∷ st) = joined (seg ∷ st)

-- A name of a directory entry: not empty, without a slash, and neither `.` nor `..`.
pub record IsName (seg : Bytes) : Type 0 where
  pub not_empty : seg ≢ []
  pub no_slash : All (λ c. c ≢ b'/') seg
  pub not_dot : is_dot seg ≡ false
  pub not_dot_dot : is_dot_dot seg ≡ false

-- A segment as it stands between slashes.
abbrev pub IsSegment : Bytes → Type 0
IsSegment seg = (seg ≢ []) × All (λ c. c ≢ b'/') seg

example_segments : segments (b'/' ∷ b'a' ∷ b'/' ∷ b'/' ∷ b'b' ∷ []) ≡ (b'a' ∷ []) ∷ (b'b' ∷ []) ∷ []
unfolding segments
example_segments = refl
