-- ===== src/Tests/Compression.antt =====
-- Examples for compression.c.
use lamseryn.Prelude.{
  ℕ, ◌+◌, true, false, Option, none, some, List, [], ◌∷◌, Bytes, codes, length, ◌≡◌, refl, ◌≤◌, All,
  arith, if◌then◌else◌, ltb, if_both, subst,
}
use lamseryn.Compression.{compress_parse_accept_encoding, bit}
use lamseryn.Compression.Negotiate.{Weight, Item, IsItem, IsWeight, header_text}
use lamseryn.Compression.Accepted.{
  last_said, names_gzip, names_brotli, names_all, decided, compress_parse_accept_encoding-text,
}
use lamseryn.Compression.Compressors.{
  Zlib, DeflateFits, compress_gzip, compress_ok, compress_mime_is_compressible,
}

-- The coding gzip is refused, and the wildcard lets br in.
refuses_gzip : compress_parse_accept_encoding (codes "gzip;q=0.000, *;q=0.5") ≡ 2
unfolding compress_parse_accept_encoding
refuses_gzip = refl

ignores_case : compress_parse_accept_encoding (codes "GZip , x-gzip; q=1 ,br;q=0") ≡ 1
unfolding compress_parse_accept_encoding
ignores_case = refl

skips_woff : compress_mime_is_compressible (some (codes "font/woff2")) ≡ false
unfolding compress_mime_is_compressible
skips_woff = refl

abbrev no_weight : Weight
no_weight = record { whole = b'0'; decimals = some (codes "00") }

abbrev gzip_item : Item
gzip_item = record { name = codes "gzip"; weight = some no_weight }

abbrev any_item : Item
any_item = record { name = codes "*"; weight = none }

abbrev two_items : List Item
two_items = gzip_item ∷ any_item ∷ []

two-IsItem : All IsItem two_items
unfolding IsItem IsWeight
two-IsItem = (
  (omega arith, (refl, (refl, (refl, (refl, tt)))), (refl, (refl, (refl, tt)))),
  ((omega arith, (refl, tt), tt), tt),
)

compress_parse_accept_encoding-text_example :
    compress_parse_accept_encoding (header_text two_items)
    ≡ bit (decided (last_said names_gzip two_items) (last_said names_all two_items)) 1
      + bit (decided (last_said names_brotli two_items) (last_said names_all two_items)) 2
compress_parse_accept_encoding-text_example =
    compress_parse_accept_encoding-text two_items two-IsItem

-- A compressor that keeps one byte.
abbrev one_byte : Zlib
one_byte = record {
  deflate_init = λ level. true;
  deflate_bound = λ n. n + 18;
  deflate = λ level src n. if ltb n 1 then none else some (7 ∷ []);
}

Within : ℕ → Option Bytes → Type 0
Within n none = Unit
Within n (some out) = length out ≤ n

one_byte-DeflateFits : DeflateFits one_byte
unfolding DeflateFits Within
one_byte-DeflateFits level src n out e =
    subst (Within n) e (if_both (Within n) (ltb n 1) (λ h. tt) (λ h. ground (arith, h)))

one_byte_smaller : compress_gzip one_byte true (codes "hello") 0 ≡ compress_ok (7 ∷ [])
unfolding compress_gzip
one_byte_smaller = refl
