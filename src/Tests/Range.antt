-- ===== src/Tests/Range.antt =====
-- Examples for http_range.c.
use lamseryn.Prelude.{true, some, ◌≡◌, ◌↔◌, refl, codes, arith}
use lamseryn.Range.{parse_u64, http_range_parse, http_range_resolve}
use lamseryn.Range.Parse.{http_range_parse-text, meaning, between}
use lamseryn.Range.Resolve.{Serves, Selects, range_of, IsWithin, http_range_resolve_exact}
use lamseryn.Range.Served.{range_served-IsWithin}

digits_then_dash : parse_u64 (codes "42-") ≡ some (42, codes "-")
unfolding parse_u64
digits_then_dash = refl

range_served-IsWithin_example :
    IsWithin (http_range_resolve (http_range_parse (codes "bytes=2-9")) 5) 5
unfolding http_range_parse http_range_resolve
range_served-IsWithin_example = range_served-IsWithin (codes "bytes=2-9") 5 (ground arith) refl

http_range_resolve_exact_example :
    Serves (http_range_resolve (range_of true 3 0) 10) 8 ↔ Selects true 3 0 10 8
http_range_resolve_exact_example =
    http_range_resolve_exact true 3 0 10 8 (ground arith) (ground arith)

http_range_parse-text_example :
    http_range_parse (codes "bytes= 2-9") ≡ meaning (between (codes "2") (codes "9"))
http_range_parse-text_example =
    http_range_parse-text b'b' b'y' b't' b'e' b's' b'=' (codes " ")
      (between (codes "2") (codes "9")) refl (ground arith) (ground arith)
