-- ===== src/Http/Events.antt =====
-- The captured headers over any calls of the callbacks (http_parser.c).
use lamseryn.Prelude.{
  ◌+◌, Bool, true, ◌&&◌, not, List, [], ◌∷◌, Bytes, ltb, ◌==◌, length, if_both, if◌then◌else◌,
}
use mathlib.Core.List.{foldl}
use lamseryn.Http.{Env, Method, complete_headers}
use lamseryn.Http.Fields.{
  Fields, ArenaRoom, capture_header, Interest, no_interest, content_length, transfer_encoding,
  expect, framing_seen, http1_header_field_seen, finalize_interested_header, on_header_field,
  on_header_value, on_headers_complete, http_parser_reset_header_state, is_in_value, add_name,
  add_value,
}
use lamseryn.Http.Captured.{IsCaptured, capture_header-IsCaptured}

framing_seen-IsCaptured :
    (what : Interest) (c : Fields) → IsCaptured c → IsCaptured (framing_seen what c)
framing_seen-IsCaptured no_interest c i = i
framing_seen-IsCaptured content_length c i = record {
  few = i.few;
  known = i.known;
  distinct = i.distinct;
}
framing_seen-IsCaptured transfer_encoding c i = record {
  few = i.few;
  known = i.known;
  distinct = i.distinct;
}
framing_seen-IsCaptured expect c i = record { few = i.few; known = i.known; distinct = i.distinct }

http1_header_field_seen-IsCaptured :
    (c : Fields) → IsCaptured c → IsCaptured (http1_header_field_seen c)
unfolding http1_header_field_seen
http1_header_field_seen-IsCaptured c i =
    let count = if c.hdr_fields_count == 65535 then 65535 else c.hdr_fields_count + 1 in
    if_both IsCaptured c.h1.header_too_big (λ big. i)
      (λ e.
        if_both IsCaptured (length c.hdr_name == 0) (λ nameless. i)
          (λ e.
            if_both IsCaptured (not (c.hdr_fields_max == 0) && ltb c.hdr_fields_max count)
              (λ many. record { few = i.few; known = i.known; distinct = i.distinct })
              (λ fine. record { few = i.few; known = i.known; distinct = i.distinct })))

finalize_interested_header-IsCaptured :
    (room : ArenaRoom) (c : Fields) → IsCaptured c → IsCaptured (finalize_interested_header room c)
unfolding finalize_interested_header
finalize_interested_header-IsCaptured room c i =
    let counted = http1_header_field_seen c in
    let captured = (capture_header room counted).1 in
    let j = http1_header_field_seen-IsCaptured c i in
    let k = capture_header-IsCaptured room counted j in
    if_both IsCaptured c.h1.internal_error (λ bad. i)
      (λ e.
        if_both IsCaptured counted.h1.header_too_big (λ big. j)
          (λ e.
            if_both IsCaptured (capture_header room counted).0
              (λ go. framing_seen-IsCaptured captured.hdr_interest captured k) (λ stop. k)))

-- The callbacks of a request's headers.
pub data HeaderEvent : Type 0 where
  field_piece : ArenaRoom → Bytes → HeaderEvent
  value_piece : Bytes → HeaderEvent
  headers_complete : ArenaRoom → Env → Bool → Method → HeaderEvent

unfoldable pub on_event : Fields → HeaderEvent → Fields
unfolding on_header_field on_header_value on_headers_complete
on_event c (field_piece room piece) = on_header_field room c piece
on_event c (value_piece piece) = on_header_value c piece
on_event c (headers_complete room env keep_alive method) =
    on_headers_complete room env keep_alive method c

on_event-IsCaptured : (c : Fields) (e : HeaderEvent) → IsCaptured c → IsCaptured (on_event c e)
unfolding on_event on_header_field on_header_value on_headers_complete
    http_parser_reset_header_state
on_event-IsCaptured c (field_piece room piece) i =
    let k = finalize_interested_header-IsCaptured room c i in
    if_both IsCaptured (length piece == 0) (λ empty. i)
      (λ e.
        if_both IsCaptured c.h1.header_too_big (λ big. i)
          (λ e.
            if_both (λ (x : Fields). IsCaptured (add_name x piece)) (is_in_value c.hdr_state)
              (λ done. record { few = k.few; known = k.known; distinct = k.distinct })
              (λ more. record { few = i.few; known = i.known; distinct = i.distinct })))
on_event-IsCaptured c (value_piece piece) i =
    if_both IsCaptured (length piece == 0) (λ empty. i)
      (λ e.
        if_both IsCaptured c.h1.header_too_big (λ big. i)
          (λ e.
            if_both (λ (x : Fields). IsCaptured (add_value x piece)) (is_in_value c.hdr_state)
              (λ more. record { few = i.few; known = i.known; distinct = i.distinct })
              (λ first. record { few = i.few; known = i.known; distinct = i.distinct })))
on_event-IsCaptured c (headers_complete room env keep_alive method) i =
    let begun : Fields = record c {
      h1 = record (c.h1) { headers_done = true; want_keepalive = keep_alive; method = method };
    } in
    let j : IsCaptured begun = record { few = i.few; known = i.known; distinct = i.distinct } in
    let k = finalize_interested_header-IsCaptured room begun j in
    if_both (λ (x : Fields). IsCaptured (record x { h1 = complete_headers env x.h1 }))
      (is_in_value c.hdr_state)
      (λ last. record { few = k.few; known = k.known; distinct = k.distinct })
      (λ none_left. record { few = i.few; known = i.known; distinct = i.distinct })

-- If at most 32 headers are captured, each at most once, and only wanted ones, then the same holds
-- after any calls of the callbacks, whatever the request and whether or not memory can be had.
pub events-IsCaptured :
    (es : List HeaderEvent) (c : Fields) → IsCaptured c → IsCaptured (foldl on_event c es)
events-IsCaptured [] c i = i
events-IsCaptured (e ∷ es) c i = events-IsCaptured es (on_event c e) (on_event-IsCaptured c e i)
