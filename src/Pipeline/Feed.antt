-- ===== src/Pipeline/Feed.antt =====
-- What `http_pipeline_feed` promises whatever the parser does: an ended request stays as it is, the
-- header limit holds before the parser sees the bytes, and an error is never taken for success.
use lamseryn.Prelude.{
  ℕ, ◌+◌, ◌<◌, ◌%◌, ◌^◌, Bool, true, false, ◌≡◌, ◌⊎◌, refl, sym, ap, subst, ◌∙◌, not, ◌&&◌, ◌||◌,
  if◌then◌else◌, arith, Bool-cases, inl, inr, List, [], ◌∷◌, Bytes, length, lt→ltb,
}
use lamseryn.Http.{Http1}
use lamseryn.Pipeline.{
  Conn, HttpAction, resp_431, Parser, http_pipeline_classify_action, http_pipeline_feed,
  is_terminal, is_error, count_header_bytes, run_parser, handle_error, max_header_bytes,
  LlhttpErrno, should_tolerate, clear_pending, Fed, hpe_ok, hpe_paused, hpe_cr_expected,
  hpe_lf_expected, hpe_invalid_header_token, hpe_other,
}
use lamseryn.Pipeline.Framing.{IsAccepted, accepted-errors}

-- A connection is fed chunk after chunk.
unfoldable pub feed_chunks : Parser → Conn → List Bytes → Conn
feed_chunks parse c [] = c
feed_chunks parse c (chunk ∷ chunks) = feed_chunks parse (http_pipeline_feed parse c chunk).0 chunks

feed-ended :
    (parse : Parser) (c : Conn) (chunk : Bytes)
    → is_terminal c.h1 ≡ true
    → (http_pipeline_feed parse c chunk).0 ≡ c
unfolding http_pipeline_feed
feed-ended parse c [] h = refl
feed-ended parse c (b ∷ buf) h = rw h refl

-- A request that ended, by an error, a limit or its last byte, is left as it is by every further
-- chunk, and so is the action it calls for.
pub feed_chunks-ended :
    (parse : Parser) (c : Conn) (chunks : List Bytes)
    → is_terminal c.h1 ≡ true
    → (feed_chunks parse c chunks ≡ c)
      × (http_pipeline_classify_action (feed_chunks parse c chunks)
          ≡ http_pipeline_classify_action c)
unfolding feed_chunks
feed_chunks-ended parse c [] h = (refl, refl)
feed_chunks-ended parse c (chunk ∷ chunks) h =
    rw (feed-ended parse c chunk h) (feed_chunks-ended parse c chunks h)

-- The bytes of the header block so far and of this chunk exceed the limit.
abbrev pub IsOver : Http1 → Bytes → Type 0
IsOver h chunk = max_header_bytes h < (h.parser_bytes + length chunk) % 2 ^ 64

counted_over :
    (h : Http1) (chunk : Bytes)
    → h.headers_done ≡ false
    → IsOver h chunk
    → count_header_bytes h (length chunk)
      ≡ record h { parser_bytes = (h.parser_bytes + length chunk) % 2 ^ 64; header_too_big = true }
unfolding count_header_bytes
counted_over h chunk early over =
    rw (early, lt→ltb (max_header_bytes h) ((h.parser_bytes + length chunk) % 2 ^ 64) over) refl

-- The outcome of a chunk of a request that has not ended.
fed-live :
    (parse : Parser) (c : Conn) (b : ℕ) (buf : Bytes) (h : Http1)
    → is_terminal c.h1 ≡ false
    → count_header_bytes c.h1 (length (b ∷ buf)) ≡ h
    → let fed = run_parser parse h c.h1.parse_error (b ∷ buf) in
      let after = clear_pending c.h1.headers_done fed.h1 in
      let c' : Conn = record c { h1 = after } in
      http_pipeline_feed parse c (b ∷ buf) ≡ (
        c',
        record {
          action = http_pipeline_classify_action c';
          header_too_big_transition = h.header_too_big && not c.h1.header_too_big;
          parse_error_transition = fed.new_parse_error;
          headers_complete_transition = not c.h1.headers_done && after.headers_done;
          tolerated_error = fed.tolerated;
          err = fed.err;
        },
      )
unfolding http_pipeline_feed
fed-live parse c b buf h live e = rw (e, live) refl

-- If a request that has not ended is over its header limit with this chunk, while its headers are
-- not complete, then the outcome does not depend on the parser: the counter moves, the request
-- counts as too big, and the answer is 431 unless the connection is drained already.
pub http_pipeline_feed-over :
    (parse : Parser) (c : Conn) (b : ℕ) (buf : Bytes)
    → is_terminal c.h1 ≡ false
    → c.h1.headers_done ≡ false
    → IsOver c.h1 (b ∷ buf)
    → ((http_pipeline_feed parse c (b ∷ buf)).0 ≡ record c {
      h1 = record c.h1 {
        parser_bytes = (c.h1.parser_bytes + length (b ∷ buf)) % 2 ^ 64;
        header_too_big = true;
      };
    })
      × ((http_pipeline_feed parse c (b ∷ buf)).1.action
          ≡ (if c.draining then http_pipeline_classify_action c else resp_431))
unfolding run_parser http_pipeline_classify_action
http_pipeline_feed-over parse c b buf live early over =
    let small : c.h1.header_too_big ≡ false = ground arith in
    rw (fed-live parse c b buf _ live (counted_over c.h1 (b ∷ buf) early over), early)
      (refl, elim (Bool-cases c.draining) [ inl d ↦ rw (d, small) refl | inr d ↦ rw d refl ])

tolerated_early :
    (h : Http1) (err : LlhttpErrno) (buf : Bytes)
    → (should_tolerate h err buf).0 ≡ true
    → (should_tolerate h err buf).1.headers_done ≡ false
unfolding should_tolerate
tolerated_early h hpe_ok buf e = ground arith
tolerated_early h hpe_paused buf e = ground arith
tolerated_early h hpe_cr_expected buf e = ground arith
tolerated_early h hpe_lf_expected buf e = ground arith
tolerated_early h hpe_invalid_header_token buf e = ground arith
tolerated_early h (hpe_other n) buf e = ground arith

-- The parser's error was let pass while headers are awaited, or it marks the request.
abbrev IsHandled : Fed → Type 0
IsHandled fed =
    ((fed.tolerated ≡ true) × (fed.h1.headers_done ≡ false))
    ⊎ ((fed.h1.parse_error || fed.h1.body_too_big) ≡ true)

handled :
    (err : LlhttpErrno) (h : Http1) (had : Bool) (buf : Bytes)
    → is_error err ≡ true
    → IsHandled (handle_error err h had buf)
unfolding handle_error
handled err h had buf e = elim (Bool-cases (should_tolerate h err buf).0) [
  | inl t ↦ rw (e, t) (inl (refl, tolerated_early h err buf t))
  | inr t ↦ elim (Bool-cases (should_tolerate h err buf).1.body_too_big) [
    | inl b ↦ rw (e, t, b) (inr (ground arith))
    | inr b ↦ rw (e, t, b) (inr refl)
  ]
]

handle_error-err :
    (err : LlhttpErrno) (h : Http1) (had : Bool) (buf : Bytes)
    → (handle_error err h had buf).err ≡ err
unfolding handle_error
handle_error-err err h had buf = elim (Bool-cases (is_error err)) [
  | inl e ↦ elim (Bool-cases (should_tolerate h err buf).0) [
    | inl t ↦ rw (e, t) refl
    | inr t ↦ elim (Bool-cases (should_tolerate h err buf).1.body_too_big) [
      | inl b ↦ rw (e, t, b) refl
      | inr b ↦ rw (e, t, b) refl
    ]
  ]
  | inr e ↦ rw e refl
]

run-IsHandled :
    (parse : Parser) (h : Http1) (had : Bool) (buf : Bytes)
    → is_error (run_parser parse h had buf).err ≡ true
    → IsHandled (run_parser parse h had buf)
unfolding run_parser
run-IsHandled parse h had buf e = elim (Bool-cases h.header_too_big) [
  | inl big ↦ absurd (ground (arith, big))
  | inr small ↦
      let ran : run_parser parse h had buf ≡ handle_error (parse h buf).0 (parse h buf).1 had buf =
        rw small refl in
      let e' : is_error (parse h buf).0 ≡ true =
        ap is_error (sym (handle_error-err (parse h buf).0 (parse h buf).1 had buf))
        ∙ ap (λ f. is_error f.err) (sym ran)
        ∙ e in
      subst IsHandled (sym ran) (handled (parse h buf).0 (parse h buf).1 had buf e')
]

-- The outcome of a feed whose parser failed.
abbrev pub IsSettled : Conn → Bool → HttpAction → Type 0
IsSettled c tolerated action =
    ((tolerated ≡ true) × (c.h1.headers_done ≡ false)) ⊎ ¬ IsAccepted action

marked :
    (c : Conn)
    → (c.h1.parse_error || c.h1.body_too_big) ≡ true
    → ¬ IsAccepted (http_pipeline_classify_action c)
marked c m a = let (e, f, g) = accepted-errors c a in absurd (ground (arith, e, g))

settled :
    (c : Conn) (fed : Fed) (had : Bool)
    → IsHandled fed
    → let c' : Conn = record c { h1 = clear_pending had fed.h1 } in
      IsSettled c' fed.tolerated (http_pipeline_classify_action c')
settled c fed had (inl (tolerated, early)) = inl (
  tolerated,
  elim (Bool-cases (not had && fed.h1.headers_done)) [ inl e ↦ rw e early | inr e ↦ rw e early ],
)
settled c fed had (inr mark) =
    let keeps : ((clear_pending had fed.h1).parse_error || (clear_pending had fed.h1).body_too_big)
        ≡ true =
      elim (Bool-cases (not had && fed.h1.headers_done)) [
        | inl e ↦ rw e mark
        | inr e ↦ rw e mark
      ] in
    inr (marked (record c { h1 = clear_pending had fed.h1 }) keeps)

-- When the parser returns an error, then either it is tolerated, which happens only while the
-- headers are not complete, or the request is answered by an error: it is neither answered as good
-- nor awaited further.
pub http_pipeline_feed-error :
    (parse : Parser) (c : Conn) (chunk : Bytes)
    → is_error (http_pipeline_feed parse c chunk).1.err ≡ true
    → IsSettled
        (http_pipeline_feed parse c chunk).0
        (http_pipeline_feed parse c chunk).1.tolerated_error
        (http_pipeline_feed parse c chunk).1.action
http_pipeline_feed-error parse c [] e = unfold http_pipeline_feed in absurd (ground (arith, e))
http_pipeline_feed-error parse c (b ∷ buf) e = elim (Bool-cases (is_terminal c.h1)) [
  | inl ended ↦ absurd (unfold http_pipeline_feed in ground (arith, e, ended))
  | inr live ↦
      let counted = count_header_bytes c.h1 (length (b ∷ buf)) in
      let fed = run_parser parse counted c.h1.parse_error (b ∷ buf) in
      let same = fed-live parse c b buf counted live refl in
      let failed = subst (λ p. is_error p.1.err ≡ true) same e in
      subst (λ p. IsSettled p.0 p.1.tolerated_error p.1.action) (sym same)
        (settled c fed c.h1.headers_done
          (run-IsHandled parse counted c.h1.parse_error (b ∷ buf) failed))
]
