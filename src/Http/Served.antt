-- ===== src/Http/Served.antt =====
-- What `on_headers_complete` in http_parser.c leaves behind for a request that gets past it without
-- an error: the path to look up, and how much body is to come.
use lamseryn.Prelude.{
  ℕ, ◌≤◌, Bool, true, false, ◌≡◌, ◌⊎◌, ◌*◌, Option, none, refl, sym, ap, subst, ◌∙◌, some, [],
  Bytes, ltb, leb, ◌==◌, if◌then◌else◌, take, Bool-cases, inl, inr, arith, not, ◌&&◌, ◌||◌, All,
}
use lamseryn.Url.{ok, percent_decode_strict, split_path_query}
use lamseryn.Url.Normalize.{path_normalize_absolute}
use lamseryn.Url.Segments.{IsName, segments, resolve, render}
use lamseryn.Url.Paths.{ends_with_slash, Normalized, path_normalize_absolute-Normalized}
use lamseryn.Http.{
  Http1, Env, complete_body, complete_target, complete_headers, resolve_max_body_bytes, fresh_body,
  fresh_path, starts_with_slash, req_path_max, current_max_body_bytes,
}
use lamseryn.Http.Target.{Passed, IsFine, target-Passed}

-- Past every check: there is no error, the method and the coding are supported.
abbrev pub IsServed : Http1 → Type 0
IsServed d = IsFine d × (d.method_not_allowed ≡ false) × (d.unsupported_te ≡ false)

headers_after :
    (env : Env) (c : Http1)
    → IsServed (complete_headers env c)
    → (complete_headers env c ≡ complete_target env (fresh_path (fresh_body c)))
      × ((c.cl_count ≡ 0) ⊎ (c.cl_count ≡ 1) × (c.te_count ≡ 0))
unfolding complete_headers
headers_after env c served = elim (Bool-cases (c.cl_invalid || ltb 1 c.cl_count)) [
  | inl e ↦ absurd (ground (arith, e))
  | inr e ↦ elim (Bool-cases c.expect_unsupported) [
    | inl f ↦ absurd (ground (arith, e, f))
    | inr f ↦ elim (Bool-cases (ltb 0 c.te_count && ltb 0 c.cl_count)) [
      | inl g ↦ absurd (ground (arith, e, f, g))
      | inr g ↦ elim (Bool-cases (ltb 0 c.te_count && not (c.te_chunked && not c.te_other))) [
        | inl h ↦ absurd (ground (arith, e, f, g, h))
        | inr h ↦ (rw (e, f, g, h) refl, ground (arith, e, g))
      ]
    ]
  ]
]

-- A served request has a target that starts with a slash, and its path is decoded and normalised:
-- the normalised path is the decoded one's segments resolved, each a name, so it stays under the
-- root; the flag tells of a slash at the end of the decoded path.
pub HasPath : Http1 → Http1 → Type 0
HasPath c d =
    (target : Bytes) × (dec : Bytes) × (c.target ≡ some target)
    × (starts_with_slash target ≡ true)
    × (d.path_len ≡ (split_path_query target).0)
    × (d.path_len ≤ req_path_max)
    × (percent_decode_strict (take d.path_len target) d.path_dec_cap true ≡ ok dec)
    × (d.path_dec ≡ some dec)
    × (d.path_norm ≡ some (render (resolve [] (segments dec))))
    × All IsName (resolve [] (segments dec))
    × (d.path_ends_with_slash ≡ ends_with_slash dec)

-- The body of a served request: it is too big exactly when the one length given is above the limit;
-- otherwise that length is what is to come, and the message ends here when nothing is.
pub HasBody : ℕ → Http1 → Http1 → Type 0
HasBody limit c d =
    (d.max_body_bytes ≡ limit)
    × (d.body_too_big ≡ (c.cl_count == 1 && ltb limit c.cl_value))
    × (d.body_remaining ≡ (if c.cl_count == 1 && leb c.cl_value limit then c.cl_value else 0))
    × (d.body_remaining ≤ d.max_body_bytes)
    × (d.message_done ≡ (c.te_count == 0 && (c.cl_count == 0 || c.cl_value == 0)))

complete_body-HasBody :
    (env : Env) (c : Http1)
    → c.body_remaining ≡ 0
    → c.message_done ≡ false
    → c.body_too_big ≡ false
    → (c.cl_count ≡ 0) ⊎ (c.cl_count ≡ 1) × (c.te_count ≡ 0)
    → HasBody (resolve_max_body_bytes env c) c (complete_body env c)
unfolding complete_body HasBody
complete_body-HasBody env c e f g (inl none_given) = ground arith
complete_body-HasBody env c e f g (inr (one, no_te)) =
    elim (Bool-cases (ltb (resolve_max_body_bytes env c) c.cl_value)) [
      | inl big ↦ ground arith
      | inr fits ↦ ground arith
    ]

HasBody-counts :
    (limit : ℕ) (b c d : Http1)
    → b.cl_count ≡ c.cl_count
    → b.te_count ≡ c.te_count
    → b.cl_value ≡ c.cl_value
    → HasBody limit b d
    → HasBody limit c d
unfolding HasBody
HasBody-counts limit b c d e f g h = rw (← e, ← f, ← g) h

resolve-same :
    (env : Env) (b c : Http1)
    → b.max_body_bytes ≡ c.max_body_bytes
    → resolve_max_body_bytes env b ≡ resolve_max_body_bytes env c
unfolding resolve_max_body_bytes current_max_body_bytes
resolve-same env b c e = rw e refl

-- The state that the target is looked at in.
abbrev start_of : Http1 → Http1
start_of c = fresh_path (fresh_body c)

Passed-HasBody :
    (env : Env) (c d : Http1)
    → (c.cl_count ≡ 0) ⊎ (c.cl_count ≡ 1) × (c.te_count ≡ 0)
    → Passed env (start_of c) d
    → HasBody (resolve_max_body_bytes env (fresh_body c)) c d
Passed-HasBody env c d framed p =
    let r = p.reached in
    let (cl, te, v, remaining, done, limit, _, _, big) = r.keeps in
    let b : Http1 = record r.before {
      path_dec = some r.dec;
      path_norm = some r.norm;
      path_ends_with_slash = r.slash;
    } in
    let framed_b : (b.cl_count ≡ 0) ⊎ (b.cl_count ≡ 1) × (b.te_count ≡ 0) = rw (cl, te) framed in
    let body =
      HasBody-counts (resolve_max_body_bytes env b) b c (complete_body env b) cl te v
        (complete_body-HasBody env b remaining done big framed_b) in
    rw (r.after, ← resolve-same env b (fresh_body c) limit) body

complete_body-path :
    (env : Env) (c : Http1)
    → ((complete_body env c).path_dec ≡ c.path_dec)
      × ((complete_body env c).path_norm ≡ c.path_norm)
      × ((complete_body env c).path_len ≡ c.path_len)
      × ((complete_body env c).path_dec_cap ≡ c.path_dec_cap)
      × ((complete_body env c).path_ends_with_slash ≡ c.path_ends_with_slash)
unfolding complete_body
complete_body-path env c = elim (Bool-cases (c.cl_count == 1)) [
  | inl e ↦ elim (Bool-cases (ltb (resolve_max_body_bytes env c) c.cl_value)) [
    | inl f ↦ rw (e, f) (refl, refl, refl, refl, refl)
    | inr f ↦ rw (e, f) (refl, refl, refl, refl, refl)
  ]
  | inr e ↦ elim (Bool-cases (c.te_count == 0)) [
    | inl f ↦ rw (e, f) (refl, refl, refl, refl, refl)
    | inr f ↦ rw (e, f) (refl, refl, refl, refl, refl)
  ]
]

normalized_lem :
    (dec norm : Bytes) (cap : ℕ) (slash : Bool)
    → path_normalize_absolute dec cap ≡ some (ok (norm, slash))
    → (norm ≡ render (resolve [] (segments dec)))
      × All IsName (resolve [] (segments dec))
      × (slash ≡ ends_with_slash dec)
normalized_lem dec norm cap slash e =
    let (same, names, room, flag) =
      subst (Normalized dec cap) e (path_normalize_absolute-Normalized dec cap) in
    (same, names, flag)

Passed-HasPath : (env : Env) (c d : Http1) → Passed env (start_of c) d → HasPath c d
unfolding HasPath
Passed-HasPath env c d p =
    let r = p.reached in
    let (cl, te, v, remaining, done, limit, target, len, big) = r.keeps in
    let b : Http1 = record r.before {
      path_dec = some r.dec;
      path_norm = some r.norm;
      path_ends_with_slash = r.slash;
    } in
    let (dec, norm, path_len, dec_cap, slash) = complete_body-path env b in
    let (same, names, flag) =
      normalized_lem r.dec r.norm r.before.path_norm_cap r.slash r.normalized in
    (
      p.target,
      r.dec,
      p.is_target,
      p.absolute,
      rw (r.after) (path_len ∙ len),
      rw (r.after, path_len, len) p.short,
      rw (r.after, dec_cap, path_len, len) r.decoded,
      rw (r.after) dec,
      rw (r.after) (norm ∙ ap some same),
      names,
      rw (r.after) (slash ∙ flag),
    )

-- If the headers of a request are complete without an error, with a supported method and coding,
-- then the path it is served by is the decoded path's segments resolved, so it stays under the root.
pub served-HasPath :
    (env : Env) (c : Http1) → IsServed (complete_headers env c) → HasPath c (complete_headers env c)
served-HasPath env c served =
    let (after, framed) = headers_after env c served in
    let (fine, allowed, coding) = subst IsServed after served in
    subst (HasPath c) (sym after)
      (Passed-HasPath env c _ (target-Passed env (start_of c) fine allowed))

-- The limit on a body in bytes: the route's if its rule sets one, or else the connection's if that
-- is set, or else 1 MiB.
abbrev pub body_limit : Option ℕ → ℕ → ℕ
body_limit (some limit) connection = limit
body_limit none connection = if ltb 0 connection then connection else 1024 * 1024

resolve-body_limit :
    (env : Env) (c : Http1)
    → resolve_max_body_bytes env (fresh_body c) ≡ body_limit env.route_max_body c.max_body_bytes
unfolding resolve_max_body_bytes current_max_body_bytes
resolve-body_limit env c = ground arith

-- If the headers of a request are complete without an error, with a supported method and coding,
-- then its body is too big exactly when the one length given is above the limit, and otherwise that
-- length, within the limit, is what is awaited. The limit is the route's if its rule sets one, or
-- else the connection's if that is set, or else 1 MiB.
pub served-HasBody :
    (env : Env) (c : Http1)
    → IsServed (complete_headers env c)
    → HasBody (body_limit env.route_max_body c.max_body_bytes) c (complete_headers env c)
served-HasBody env c served =
    let (after, framed) = headers_after env c served in
    let (fine, allowed, coding) = subst IsServed after served in
    let body = Passed-HasBody env c _ framed (target-Passed env (start_of c) fine allowed) in
    rw (← resolve-body_limit env c, after) body
