-- ===== src/Http/Bodies.antt =====
-- The body limit over the pieces of a body (http_parser.c).
use lamseryn.Prelude.{
  ℕ, ◌+◌, ◌≤◌, ◌<◌, Bool, true, false, List, [], ◌∷◌, ◌≡◌, ap, ◌∙◌, arith, ltb, leb, if◌then◌else◌,
  Bool-cases, inl, inr, tests,
}
use lamseryn.Range.{uint64_max}
use lamseryn.Http.{Http1, current_max_body_bytes}
use lamseryn.Http.Collect.{on_body}

abbrev pub total : List ℕ → ℕ
total [] = 0
total (n ∷ ns) = n + total ns

-- The body arrives in pieces, until the parser is told to stop.
pub on_body_pieces : Http1 → List ℕ → Bool × Http1
on_body_pieces c [] = (true, c)
on_body_pieces c (n ∷ ns) =
    let (go, c') = on_body c n in if go then on_body_pieces c' ns else (false, c')

body_fits :
    (c : Http1) (n : ℕ)
    → current_max_body_bytes c ≤ uint64_max
    → c.body_bytes + n ≤ current_max_body_bytes c
    → on_body c n ≡ (true, record c { body_bytes = c.body_bytes + n })
unfolding on_body current_max_body_bytes
body_fits c n big fits = ground arith

body_exceeds :
    (c : Http1) (n : ℕ)
    → c.body_bytes ≤ current_max_body_bytes c
    → current_max_body_bytes c < c.body_bytes + n
    → ((on_body c n).0 ≡ false) × ((on_body c n).1.body_too_big ≡ true)
unfolding on_body current_max_body_bytes
body_exceeds c n below over = ground arith

-- If the limit fits a uint64_t and the body so far is within it, then the parser goes on exactly
-- as long as the body with the further pieces is within it.
pub body_pieces :
    (ns : List ℕ) (c : Http1)
    → current_max_body_bytes c ≤ uint64_max
    → c.body_bytes ≤ current_max_body_bytes c
    → (on_body_pieces c ns).0 ≡ leb (c.body_bytes + total ns) (current_max_body_bytes c)
unfolding on_body_pieces current_max_body_bytes
body_pieces [] c big below = ground arith
body_pieces (n ∷ ns) c big below =
    elim (Bool-cases (ltb (current_max_body_bytes c) (c.body_bytes + n))) [
      | inl over ↦
          let (stop, _) = body_exceeds c n below (omega (tests, over)) in ground (arith, stop, over)
      | inr fits ↦
          let sum : c.body_bytes + n ≤ current_max_body_bytes c = ground (arith, fits) in
          rw (body_fits c n big sum) (
            body_pieces ns (record c { body_bytes = c.body_bytes + n }) big sum
            ∙ ap (λ k. leb k (current_max_body_bytes c)) (omega arith))
    ]
