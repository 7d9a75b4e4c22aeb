-- ===== src/Tests/Rx.antt =====
-- Examples for http_boundary.c and rx_stash.c.
use lamseryn.Prelude.{
  ◌-◌, none, true, false, some, [], ◌∷◌, ◌≡◌, ◌↔◌, ◌+◌, ◌++◌, refl, codes, length,
}
use lamseryn.Rx.Stash.{contents, do_ops, append, consume, stash_fifo}
use lamseryn.Rx.Pool.{Pool}
use lamseryn.Rx.Boundary.{find_header_terminator_end}
use lamseryn.Rx.Terminator.{IsFirstEnd, find_header_terminator_end_lem}
use lamseryn.Rx.Tail.{HeaderState}
use lamseryn.Rx.Chunks.{last_three, find-last_three}
use mathlib.Core.Option

find_header_terminator_end_lem_example :
    (find_header_terminator_end (codes "a\r\n") (codes "\r\nbody") ≡ some 5)
    ↔ IsFirstEnd (codes "a\r\n\r\nbody") 5
find_header_terminator_end_lem_example =
    find_header_terminator_end_lem (codes "a\r\n") (codes "\r\nbody") 5

find-last_three_example :
    find_header_terminator_end [] (codes "ab\r\n\r" ++ codes "\nbody")
    ≡ Option.map
        (λ e. e + (length (codes "ab\r\n\r") - 3))
        (find_header_terminator_end (last_three (codes "ab\r\n\r")) (codes "\nbody"))
unfolding find_header_terminator_end
find-last_three_example = find-last_three (codes "ab\r\n\r") (codes "\nbody") refl

abbrev parsing : HeaderState
parsing = record {
  headers_done = false;
  parse_error = false;
  header_too_big = false;
  rx_tail = codes "\r\n\r";
}

stash_fifo_example :
    let (stash', taken, left) =
      do_ops 8 none (append true (codes "abc") ∷ consume 2 ∷ append true (codes "defghij") ∷ []) in
    contents none ++ taken ≡ left ++ contents stash'
stash_fifo_example =
    stash_fifo 8 (append true (codes "abc") ∷ consume 2 ∷ append true (codes "defghij") ∷ []) none

abbrev empty_pool : Pool
empty_pool = record { free_list = []; total = 0; inuse = 0 }
