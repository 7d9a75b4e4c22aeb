-- ===== src/Tests/Url.antt =====
-- Examples for url.c.
use lamseryn.Prelude.{refl, codes}
use lamseryn.Url.{percent_decode_strict}
use lamseryn.Url.Normalize.{path_normalize_absolute}
use lamseryn.Url.Decode.{Decoded, percent_decode_strict-Decoded}
use lamseryn.Url.Paths.{Normalized, path_normalize_absolute-Normalized}

path_normalize_absolute-Normalized_example :
    Normalized (codes "/a/./b/../c/") 64 (path_normalize_absolute (codes "/a/./b/../c/") 64)
path_normalize_absolute-Normalized_example =
    path_normalize_absolute-Normalized (codes "/a/./b/../c/") 64

percent_decode_strict-Decoded_example : Decoded (codes "/a%20b") (codes "/a b") 16
unfolding percent_decode_strict
percent_decode_strict-Decoded_example =
    percent_decode_strict-Decoded (codes "/a%20b") 16 (codes "/a b") refl
