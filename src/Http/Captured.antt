-- ===== src/Http/Captured.antt =====
-- What is captured of the headers of a request (http_parser.c).
use lamseryn.Prelude.{
  ℕ, ◌+◌, ◌≤◌, Bool, true, false, ◌&&◌, not, Option, none, some, List, [], ◌∷◌, ◌++◌, ◌≡◌, refl,
  sym, ap, ◌∙◌, inl, inr, arith, leb, ◌==◌, length, length-append, All, All-append, Bool-cases,
  Option-cases, if_both, if◌then◌else◌,
}
use lamseryn.Http.Ids.{
  HeaderId, id_host, id_connection, id_accept_encoding, id_range, id_if_range, id_if_modified_since,
  id_if_none_match, id_authorization, id_cookie, id_origin, id_access_control_request_method,
  id_access_control_request_headers, number, same_id, Mask, add_bit, Entry,
  http_header_lookup_lower,
}
use lamseryn.Http.Fields.{
  Fields, ArenaRoom, req_hdrs_max, new_entry, hdrs_ensure_cap, store_header, capture_header,
  capture_found,
}

-- No two entries have the same header.
abbrev pub Distinct : List Entry → Type 0
Distinct [] = Unit
Distinct (e ∷ es) = All (λ d. same_id e.id d.id ≡ false) es × Distinct es

-- At most 32 headers are captured, each at most once, and only wanted ones, which count as seen.
pub record IsCaptured (c : Fields) : Type 0 where
  pub few : length c.req_hdrs ≤ req_hdrs_max
  pub known :
      All (λ e. (c.req_hdr_store_mask e.id ≡ true) × (c.req_hdr_seen_mask e.id ≡ true)) c.req_hdrs
  pub distinct : Distinct c.req_hdrs

of_number : ℕ → HeaderId
of_number n =
    if n == 0
    then id_host
    else if n == 1
    then id_connection
    else if n == 2
    then id_accept_encoding
    else if n == 3
    then id_range
    else if n == 4
    then id_if_range
    else if n == 5
    then id_if_modified_since
    else if n == 6
    then id_if_none_match
    else if n == 7
    then id_authorization
    else if n == 8
    then id_cookie
    else if n == 9
    then id_origin
    else if n == 10
    then id_access_control_request_method
    else id_access_control_request_headers

of_number-number : (a : HeaderId) → of_number (number a) ≡ a
unfolding of_number
of_number-number id_host = refl
of_number-number id_connection = refl
of_number-number id_accept_encoding = refl
of_number-number id_range = refl
of_number-number id_if_range = refl
of_number-number id_if_modified_since = refl
of_number-number id_if_none_match = refl
of_number-number id_authorization = refl
of_number-number id_cookie = refl
of_number-number id_origin = refl
of_number-number id_access_control_request_method = refl
of_number-number id_access_control_request_headers = refl

same_id-eq : (a b : HeaderId) → same_id a b ≡ true → a ≡ b
same_id-eq a b h =
    let numbers : number a ≡ number b = ground (arith, h) in
    sym (of_number-number a) ∙ ap of_number numbers ∙ of_number-number b

true-false : ¬ (true ≡ false)
true-false e = ground (arith, e)

-- A header that has not been seen is not that of an entry.
unseen :
    (store seen : Mask) (id : HeaderId) (es : List Entry)
    → seen id ≡ false
    → All (λ e. (store e.id ≡ true) × (seen e.id ≡ true)) es
    → All (λ e. same_id e.id id ≡ false) es
unseen store seen id [] h all = tt
unseen store seen id (e ∷ es) h all = (
  elim (Bool-cases (same_id e.id id)) [
    | inr other ↦ other
    | inl same ↦ absurd (true-false (sym all.0.1 ∙ ap seen (same_id-eq e.id id same) ∙ h))
  ],
  unseen store seen id es h all.1,
)

more_seen :
    (store seen : Mask) (id : HeaderId) (es : List Entry)
    → All (λ e. (store e.id ≡ true) × (seen e.id ≡ true)) es
    → All (λ e. (store e.id ≡ true) × (add_bit seen id e.id ≡ true)) es
more_seen store seen id [] all = tt
more_seen store seen id (e ∷ es) all = (
  (all.0.0, if_both (λ b. b ≡ true) (same_id id e.id) (λ h. refl) (λ h. all.0.1)),
  more_seen store seen id es all.1,
)

Distinct-append :
    (es : List Entry) (e : Entry)
    → Distinct es
    → All (λ d. same_id d.id e.id ≡ false) es
    → Distinct (es ++ e ∷ [])
Distinct-append [] e d u = (tt, tt)
Distinct-append (x ∷ es) e d u = (
  All-append (λ y. same_id x.id y.id ≡ false) es (e ∷ []) d.0 (u.0, tt),
  Distinct-append es e d.1 u.1,
)

own_bit : (seen : Mask) (id : HeaderId) → add_bit seen id id ≡ true
own_bit seen id =
    if_both (λ b. b ≡ true) (same_id id id) (λ h. refl) (λ h. absurd (ground (arith, h)))

one_more :
    (es : List Entry) (e : Entry)
    → leb req_hdrs_max (length es) ≡ false
    → length (es ++ e ∷ []) ≤ req_hdrs_max
one_more es e h = ground (arith, h, length-append es (e ∷ []))

go_wanted : (a b : Bool) → (a && not b) ≡ true → a ≡ true
go_wanted a b h = ground (arith, h)

go_new : (a b : Bool) → (a && not b) ≡ true → b ≡ false
go_new a b h = ground (arith, h)

store_header-IsCaptured :
    (room : ArenaRoom) (c : Fields) (id : HeaderId)
    → IsCaptured c
    → c.req_hdr_store_mask id ≡ true
    → c.req_hdr_seen_mask id ≡ false
    → IsCaptured (store_header room c id).1
unfolding store_header
store_header-IsCaptured room c id i wanted new =
    let goal : Bool × Fields → Type 0 = λ r. IsCaptured r.1 in
    let count = length c.req_hdrs in
    let marked = more_seen c.req_hdr_store_mask c.req_hdr_seen_mask id c.req_hdrs i.known in
    if_both goal (leb req_hdrs_max count)
      (λ full. record { few = i.few; known = marked; distinct = i.distinct })
      (λ space. elim (Option-cases (hdrs_ensure_cap room.entries c.req_hdr_cap (count + 1))) [
        | inl e ↦ rw e (record { few = i.few; known = marked; distinct = i.distinct })
        | inr (cap, e) ↦ rw e (
            if_both goal (room.name && room.value)
              (λ ok. record {
                few = one_more c.req_hdrs (new_entry c id) space;
                known =
                    All-append
                      (λ e.
                        (c.req_hdr_store_mask e.id ≡ true)
                        × (add_bit c.req_hdr_seen_mask id e.id ≡ true))
                      c.req_hdrs (new_entry c id ∷ []) marked
                      ((wanted, own_bit c.req_hdr_seen_mask id), tt);
                distinct =
                    Distinct-append c.req_hdrs (new_entry c id) i.distinct
                      (unseen c.req_hdr_store_mask c.req_hdr_seen_mask id c.req_hdrs new i.known);
              })
              (λ fail. record { few = i.few; known = marked; distinct = i.distinct }))
      ])

capture_found-IsCaptured :
    (room : ArenaRoom) (c : Fields) (found : Option HeaderId)
    → IsCaptured c
    → IsCaptured (capture_found room c found).1
unfolding capture_found
capture_found-IsCaptured room c none i = i
capture_found-IsCaptured room c (some id) i =
    let goal : Bool × Fields → Type 0 = λ r. IsCaptured r.1 in
    let wanted = c.req_hdr_store_mask id in
    let seen = c.req_hdr_seen_mask id in
    if_both goal (wanted && not seen)
      (λ go. store_header-IsCaptured room c id i (go_wanted wanted seen go) (go_new wanted seen go))
      (λ stop. i)

pub capture_header-IsCaptured :
    (room : ArenaRoom) (c : Fields) → IsCaptured c → IsCaptured (capture_header room c).1
unfolding capture_header
capture_header-IsCaptured room c i =
    capture_found-IsCaptured room c (http_header_lookup_lower c.hdr_name) i
