-- ===== src/Tests/Headers.antt =====
-- Examples for the callbacks of http_parser.c.
use lamseryn.Prelude.{
  false, length, ◌||◌, List, Bytes, ◌+◌, true, none, [], ◌∷◌, ◌≡◌, refl, codes, arith, leb,
}
use mathlib.Core.List.{foldl}
use lamseryn.Http.{Http1, current_max_body_bytes}
use lamseryn.Http.Values.{hdr_append_lower, parse_u64_ows_decimal}
use lamseryn.Http.Collect.{content_length_seen}
use lamseryn.Http.Lengths.{Lengths, content_lengths_lem}
use lamseryn.Http.Bodies.{on_body_pieces, total, body_pieces}
use lamseryn.Http.Tokens.{
  Splits, te_tokens, expect_value_supported, any_chunked, any_other, expected, tokens_lem,
}
use lamseryn.Http.Fields.{
  Fields, ArenaRoom, before_field, in_value, finalize_interested_header, http1_header_field_seen,
  capture_header, no_interest, on_header_field, on_header_value,
}
use lamseryn.Http.Captured.{IsCaptured}
use lamseryn.Http.Events.{HeaderEvent, field_piece, value_piece, on_event, events-IsCaptured}
use lamseryn.Http.Gather.{settled, gathered}
use lamseryn.Tests.Http.{request}

abbrev no_lengths : Http1
no_lengths = record request { cl_count = 0; cl_value = 0 }

content_lengths_lem_example :
    Lengths (codes "7" ∷ []) (foldl content_length_seen no_lengths (codes "7" ∷ []))
unfolding content_length_seen parse_u64_ows_decimal
content_lengths_lem_example = content_lengths_lem (codes "7" ∷ []) no_lengths refl refl

abbrev limited : Http1
limited = record request { max_body_bytes = 10 }

body_pieces_example :
    (on_body_pieces limited (4 ∷ 5 ∷ 6 ∷ [])).0
    ≡ leb (limited.body_bytes + total (4 ∷ 5 ∷ 6 ∷ [])) (current_max_body_bytes limited)
unfolding current_max_body_bytes
body_pieces_example = body_pieces (4 ∷ 5 ∷ 6 ∷ []) limited (ground arith) (ground arith)

abbrev no_target : Http1
no_target = record request { target = none; target_cap = 0 }

-- No header is being read yet.
abbrev no_header : Fields
no_header = record {
  h1 = request;
  header_fields_too_many = false;
  req_hdr_store_mask = λ id. false;
  req_hdr_seen_mask = λ id. false;
  hdr_state = before_field;
  hdr_interest = no_interest;
  hdr_name = [];
  hdr_val = [];
  hdr_val_raw = [];
  hdr_val_raw_truncated = false;
  hdr_fields_count = 0;
  hdr_fields_max = 100;
  req_hdrs = [];
  req_hdr_cap = 0;
  expect_count = 0;
  expect_100_continue = false;
}

abbrev no_arena : ArenaRoom
no_arena = record { entries = false; name = false; value = false }

-- The value of `Host: x` has been read, and the next header has not begun.
abbrev after_host : Fields
after_host = record no_header {
  hdr_state = in_value;
  hdr_name = codes "host";
  hdr_val_raw = codes "x";
}

-- The header before is counted, and leaves no text behind.
expect_gathered :
    (gathered (settled no_arena after_host) (codes "Expect") (codes "x")).hdr_fields_count ≡ 1
unfolding finalize_interested_header http1_header_field_seen capture_header
expect_gathered = refl

tokens_lem_example :
    (toks : List Bytes) × Splits (codes "gzip, chunked") toks
    × (te_tokens (codes "gzip, chunked") false false
        ≡ (false || any_chunked toks, false || any_other toks))
    × (expect_value_supported (codes "gzip, chunked") ≡ expected false toks)
tokens_lem_example = tokens_lem (codes "gzip, chunked") false false

two_codings : te_tokens (codes "gzip, chunked") false false ≡ (true, true)
unfolding te_tokens
two_codings = refl

-- A header that is over is accounted for when the next one begins.
counted_expect :
    (on_header_field no_arena
      (on_header_value (on_header_field no_arena no_header (codes "Expect")) (codes "100-continue"))
      (codes "Host")).expect_100_continue
    ≡ true
unfolding on_header_field on_header_value hdr_append_lower expect_value_supported
counted_expect = refl

abbrev full_arena : ArenaRoom
full_arena = record { entries = true; name = true; value = true }

-- Every header is wanted.
abbrev wanting : Fields
wanting = record no_header { req_hdr_store_mask = λ id. true }

-- `Host` is given twice; the first is captured when the second begins.
abbrev two_hosts : List HeaderEvent
two_hosts =
    field_piece full_arena (codes "Host")
    ∷ value_piece (codes "a")
    ∷ field_piece full_arena (codes "Host")
    ∷ value_piece (codes "b")
    ∷ field_piece full_arena (codes "Accept")
    ∷ []

one_captured : length (foldl on_event wanting two_hosts).req_hdrs ≡ 1
unfolding on_event on_header_field on_header_value hdr_append_lower
one_captured = refl

events-IsCaptured_example : IsCaptured (foldl on_event wanting two_hosts)
events-IsCaptured_example =
    events-IsCaptured two_hosts wanting (record { few = omega arith; known = tt; distinct = tt })
