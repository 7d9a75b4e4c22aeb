-- ===== src/Pipeline/Framing.antt =====
-- What the framing headers of a request must be for the request to be served or its body awaited.
use lamseryn.Prelude.{Bool, true, false, ◌≡◌, ◌⊎◌, inl, inr, ◌≤◌, arith}
use lamseryn.Http.{Http1, Env, complete_headers}
use lamseryn.Pipeline.{Conn, HttpAction, continue, resp_ok, http_pipeline_classify_action}

-- The request goes on: it is answered, or more of it is awaited.
abbrev pub IsAccepted : HttpAction → Type 0
IsAccepted act = (act ≡ resp_ok) ⊎ (act ≡ continue)

-- The framing of a request is unambiguous: at most one valid length, nothing expected that is not
-- supported, and a transfer coding only without a length, and only the chunked one.
abbrev pub IsFramed : Http1 → Type 0
IsFramed c =
    (c.cl_invalid ≡ false)
    × (c.expect_unsupported ≡ false)
    × (c.cl_count ≤ 1)
    × ((c.te_count ≡ 0) ⊎ ((c.cl_count ≡ 0) × (c.te_chunked ≡ true) × (c.te_other ≡ false)))

pub accepted-errors :
    (c : Conn)
    → IsAccepted (http_pipeline_classify_action c)
    → (c.h1.parse_error ≡ false) × (c.h1.unsupported_te ≡ false) × (c.h1.body_too_big ≡ false)
unfolding http_pipeline_classify_action
accepted-errors c (inl e) = ground arith
accepted-errors c (inr e) = ground arith

complete-IsFramed :
    (env : Env) (c : Http1)
    → (complete_headers env c).parse_error ≡ false
    → (complete_headers env c).unsupported_te ≡ false
    → IsFramed c
unfolding complete_headers
complete-IsFramed env c e f = ground arith

-- If the request whose headers are complete is answered as good, or its body is awaited, then its
-- framing is unambiguous.
pub accepted-IsFramed :
    (env : Env) (c : Http1) (draining : Bool)
    → IsAccepted (
        http_pipeline_classify_action (record { h1 = complete_headers env c; draining = draining }))
    → IsFramed c
accepted-IsFramed env c draining a =
    let (e, f, g) =
      accepted-errors (record { h1 = complete_headers env c; draining = draining }) a in
    complete-IsFramed env c e f
