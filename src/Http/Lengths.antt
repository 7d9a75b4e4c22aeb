-- ===== src/Http/Lengths.antt =====
-- The Content-Length headers of a request together (http_parser.c).
use lamseryn.Prelude.{
  true, false, some, List, [], ◌∷◌, ◌≡◌, arith, Bytes, Bool-cases, Option-cases, inl, inr,
}
use mathlib.Core.List.{foldl}
use lamseryn.Http.{Http1}
use lamseryn.Http.Values.{parse_u64_ows_decimal}
use lamseryn.Http.Collect.{content_length_seen}

seen_invalid :
    (c : Http1) (val : Bytes) → c.cl_invalid ≡ true → (content_length_seen c val).cl_invalid ≡ true
unfolding content_length_seen
seen_invalid c val h = ground arith

-- A Content-Length value that is read, and one that is not.
seen_first :
    (c : Http1) (val : Bytes)
    → c.cl_count ≡ 0
    → (content_length_seen c val).cl_invalid ≡ false
    → ((content_length_seen c val).cl_count ≡ 1)
      × (parse_u64_ows_decimal val ≡ some (content_length_seen c val).cl_value)
unfolding content_length_seen
seen_first c val zero_count h = elim (Option-cases (parse_u64_ows_decimal val)) [
  | inl e ↦ absurd (ground (arith, e))
  | inr (v, e) ↦ ground (arith, e)
]

seen_again :
    (c : Http1) (val : Bytes) → c.cl_count ≡ 1 → (content_length_seen c val).cl_invalid ≡ true
unfolding content_length_seen
seen_again c val one = elim (Option-cases (parse_u64_ows_decimal val)) [
  | inl e ↦ ground (arith, e)
  | inr (v, e) ↦ ground (arith, e)
]

lengths_invalid :
    (vals : List Bytes) (c : Http1)
    → c.cl_invalid ≡ true
    → (foldl content_length_seen c vals).cl_invalid ≡ true
lengths_invalid [] c h = h
lengths_invalid (val ∷ vals) c h =
    lengths_invalid vals (content_length_seen c val) (seen_invalid c val h)

-- What the Content-Length headers of a request say together.
abbrev pub Lengths : List Bytes → Http1 → Type 0
Lengths [] c = c.cl_count ≡ 0
Lengths (val ∷ []) c = (c.cl_count ≡ 1) × (parse_u64_ows_decimal val ≡ some c.cl_value)
Lengths (val ∷ other ∷ vals) c = ⊥

-- If none was counted before, and after the Content-Length headers of a request, however many, the
-- length does not count as invalid, then there is at most one such header, and its value is the
-- one that was read.
pub content_lengths_lem :
    (vals : List Bytes) (c : Http1)
    → c.cl_count ≡ 0
    → (foldl content_length_seen c vals).cl_invalid ≡ false
    → Lengths vals (foldl content_length_seen c vals)
content_lengths_lem [] c fresh valid = fresh
content_lengths_lem (val ∷ []) c fresh valid = seen_first c val fresh valid
content_lengths_lem (val ∷ other ∷ vals) c fresh valid =
    elim (Bool-cases (content_length_seen c val).cl_invalid) [
      | inl bad ↦
          let still = lengths_invalid (other ∷ vals) (content_length_seen c val) bad in
          absurd (ground (arith, still, valid))
      | inr good ↦
          let one = (seen_first c val fresh good).0 in
          let twice = seen_again (content_length_seen c val) other one in
          let still =
            lengths_invalid vals (content_length_seen (content_length_seen c val) other) twice in
          absurd (ground (arith, still, valid))
    ]
