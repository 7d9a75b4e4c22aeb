-- ===== src/Pipeline/Plans.antt =====
-- What a plan of http_pipeline.c promises: which requests are answered as good, and that after an
-- error the connection is not used again.
use lamseryn.Prelude.{
  Bool, if◌then◌else◌, true, false, ◌≡◌, refl, not, ◌&&◌, arith, Bool-cases, inl, inr,
}
use lamseryn.Http.{Http1}
use lamseryn.Responses.{
  RespKind, rk_ok_close, rk_ok_ka, rk_400, rk_405, rk_413, rk_431, rk_500, rk_501,
}
use lamseryn.Pipeline.{
  Conn, HttpAction, continue, resp_ok, resp_400, resp_413, resp_431, resp_501, HttpApplyPlan,
  HttpErrorPlan, HttpApplyKind, apply_continue, apply_ok, apply_error, apply_internal_error,
  http_pipeline_classify_action, http_pipeline_build_apply_plan, http_pipeline_error_plan,
  http_pipeline_internal_error_plan, http_pipeline_ok_plan,
}

-- The connection is not kept: it is closed after the response, or drained after it, not both.
abbrev IsFinal : HttpErrorPlan → Type 0
IsFinal p = (p.keepalive ≡ false) × (p.close_after_send ≡ not p.drain_after_headers)

-- The one error after which what the client still sends is read and thrown away.
abbrev is_431 : RespKind → Bool
is_431 rk_431 = true
is_431 _ = false

-- No error flag asks for an answer; the limit on headers counts only while the connection is not
-- draining.
abbrev IsClean : Conn → Type 0
IsClean c =
    ((c.h1.header_too_big && not c.draining) ≡ false)
    × (c.h1.unsupported_te ≡ false)
    × (c.h1.body_too_big ≡ false)
    × (c.h1.parse_error ≡ false)

-- The flag that each error answer stands for, with those that come before it not set.
abbrev Blames : Conn → RespKind → Type 0
Blames c rk_431 = (c.h1.header_too_big && not c.draining) ≡ true
Blames c rk_501 = ((c.h1.header_too_big && not c.draining) ≡ false) × (c.h1.unsupported_te ≡ true)
Blames c rk_413 =
    ((c.h1.header_too_big && not c.draining) ≡ false)
    × (c.h1.unsupported_te ≡ false)
    × (c.h1.body_too_big ≡ true)
Blames c rk_400 =
    ((c.h1.header_too_big && not c.draining) ≡ false)
    × (c.h1.unsupported_te ≡ false)
    × (c.h1.body_too_big ≡ false)
    × (c.h1.parse_error ≡ true)
Blames c _ = ⊥

-- The answer to a good request.
abbrev ok_kind : Http1 → RespKind
ok_kind h =
    if h.method_not_allowed then rk_405 else if h.want_keepalive then rk_ok_ka else rk_ok_close

-- What a plan may be made of, for each kind.
abbrev Justified : Conn → HttpApplyPlan → HttpApplyKind → Type 0
Justified c p apply_continue =
    (c.h1.internal_error ≡ false) × (c.h1.message_done ≡ false) × IsClean c
Justified c p apply_ok =
    (c.h1.internal_error ≡ false)
    × (c.h1.message_done ≡ true)
    × IsClean c
    × (p.ok.kind ≡ ok_kind c.h1)
    × (p.ok.keepalive ≡ (c.h1.want_keepalive && not c.h1.method_not_allowed))
    × (p.ok.close_after_send ≡ c.h1.method_not_allowed)
Justified c p apply_error =
    (c.h1.internal_error ≡ false)
    × Blames c p.error.kind
    × IsFinal p.error
    × (p.error.drain_after_headers ≡ is_431 p.error.kind)
Justified c p apply_internal_error =
    (c.h1.internal_error ≡ true)
    × (p.error.kind ≡ rk_500)
    × IsFinal p.error
    × (p.error.drain_after_headers ≡ false)

pub IsJustified : Conn → HttpApplyPlan → Type 0
IsJustified c p = Justified c p p.kind

internal_plan :
    (c : Conn) (act : HttpAction)
    → c.h1.internal_error ≡ true
    → IsJustified c (http_pipeline_build_apply_plan c.h1 act)
unfolding http_pipeline_build_apply_plan IsJustified http_pipeline_internal_error_plan
internal_plan c act e = rw e (refl, refl, (refl, refl), refl)

-- The state that each action is chosen in.
abbrev ActionHolds : Conn → HttpAction → Type 0
ActionHolds c continue = (c.h1.message_done ≡ false) × IsClean c
ActionHolds c resp_ok = (c.h1.message_done ≡ true) × IsClean c
ActionHolds c resp_431 = Blames c rk_431
ActionHolds c resp_501 = Blames c rk_501
ActionHolds c resp_413 = Blames c rk_413
ActionHolds c resp_400 = Blames c rk_400

classify_holds : (c : Conn) → ActionHolds c (http_pipeline_classify_action c)
unfolding http_pipeline_classify_action
classify_holds c = elim (Bool-cases (c.h1.header_too_big && not c.draining)) [
  | inl e ↦ rw e e
  | inr e ↦ elim (Bool-cases c.h1.unsupported_te) [
    | inl f ↦ rw (e, f) (e, refl)
    | inr f ↦ elim (Bool-cases c.h1.body_too_big) [
      | inl g ↦ rw (e, f, g) (e, refl, refl)
      | inr g ↦ elim (Bool-cases c.h1.parse_error) [
        | inl h ↦ rw (e, f, g, h) (e, refl, refl, refl)
        | inr h ↦ elim (Bool-cases c.h1.message_done) [
          | inl i ↦ rw (e, f, g, h, i) (refl, (e, refl, refl, refl))
          | inr i ↦ rw (e, f, g, h, i) (refl, (e, refl, refl, refl))
        ]
      ]
    ]
  ]
]

action_plan :
    (c : Conn) (act : HttpAction)
    → c.h1.internal_error ≡ false
    → ActionHolds c act
    → IsJustified c (http_pipeline_build_apply_plan c.h1 act)
unfolding http_pipeline_build_apply_plan IsJustified http_pipeline_error_plan http_pipeline_ok_plan
action_plan c resp_431 e k = rw e (refl, k, (refl, refl), refl)
action_plan c resp_400 e k = rw e (refl, k, (refl, refl), refl)
action_plan c resp_413 e k = rw e (refl, k, (refl, refl), refl)
action_plan c resp_501 e k = rw e (refl, k, (refl, refl), refl)
action_plan c continue e (waits, clean) = rw e (refl, waits, clean)
action_plan c resp_ok e (done, clean) = elim (Bool-cases c.h1.method_not_allowed) [
  | inl f ↦ rw (e, f) (refl, done, clean, refl, ground (arith, f), refl)
  | inr f ↦ rw (e, f) (refl, done, clean, refl, ground (arith, f), refl)
]

-- The plan for a connection follows its state, in this order: an internal error is answered by 500;
-- then too big headers, unless the connection is draining, by 431; an unsupported coding by 501; too
-- big a body by 413; a parse error by 400; a message that is not complete waits; and a complete one
-- is answered by 405 when its method is not supported, or as good. The connection is kept only for
-- a good answer to a request that wants that; it is drained after 431 and closed after any other
-- error, 405 included.
pub http_pipeline_build_apply_plan_lem :
    (c : Conn)
    → IsJustified c (http_pipeline_build_apply_plan c.h1 (http_pipeline_classify_action c))
http_pipeline_build_apply_plan_lem c = elim (Bool-cases c.h1.internal_error) [
  | inl e ↦ internal_plan c (http_pipeline_classify_action c) e
  | inr e ↦ action_plan c (http_pipeline_classify_action c) e (classify_holds c)
]
