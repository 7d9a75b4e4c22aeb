-- ===== src/Http/Target.antt =====
-- What a request has when it gets past `on_headers_complete` in http_parser.c without an error: the
-- normalised path, and the framing of its body.
use lamseryn.Prelude.{
  ℕ, ◌≤◌, Bool, true, false, ◌≡◌, refl, sym, subst, ◌∙◌, Option, none, some, [], ◌∷◌, Bytes, ltb,
  ◌==◌, if◌then◌else◌, length, take, Bool-cases, inl, inr, arith, not, ◌&&◌, ◌||◌,
}
use lamseryn.Url.{Result, ok, invalid, overflow, percent_decode_strict, split_path_query}
use lamseryn.Url.Normalize.{path_normalize_absolute}
use lamseryn.Http.{
  Http1, Env, complete_body, complete_normalized, complete_decoded, complete_buffers, complete_path,
  complete_with_target, complete_target, with_dec, with_norm, is_none, is_get_or_head,
  starts_with_slash, req_path_max,
}

-- The fields that the steps up to the body leave alone.
abbrev pub Keeps : Http1 → Http1 → Type 0
Keeps c d =
    (d.cl_count ≡ c.cl_count)
    × (d.te_count ≡ c.te_count)
    × (d.cl_value ≡ c.cl_value)
    × (d.body_remaining ≡ c.body_remaining)
    × (d.message_done ≡ c.message_done)
    × (d.max_body_bytes ≡ c.max_body_bytes)
    × (d.target ≡ c.target)
    × (d.path_len ≡ c.path_len)
    × (d.body_too_big ≡ c.body_too_big)

-- The path was decoded and normalised, and then the body was looked at.
pub record Reached (env : Env) (path : Bytes) (c d : Http1) : Type 0 where
  pub dec : Bytes
  pub norm : Bytes
  pub slash : Bool
  pub before : Http1
  pub keeps : Keeps c before
  pub decoded : percent_decode_strict path before.path_dec_cap true ≡ ok dec
  pub normalized : path_normalize_absolute dec before.path_norm_cap ≡ some (ok (norm, slash))
  pub after :
      d
      ≡ complete_body env (record before {
        path_dec = some dec;
        path_norm = some norm;
        path_ends_with_slash = slash;
      })

abbrev pub IsFine : Http1 → Type 0
IsFine d = (d.parse_error ≡ false) × (d.internal_error ≡ false)

normalized_cases :
    (env : Env) (c : Http1) (r : Option (Result (Bytes × Bool)))
    → IsFine (complete_normalized env c r)
    → (out : Bytes × Bool) × (r ≡ some (ok out))
unfolding complete_normalized
normalized_cases env c none fine = ground arith
normalized_cases env c (some invalid) fine = ground arith
normalized_cases env c (some overflow) fine = ground arith
normalized_cases env c (some (ok out)) fine = (out, refl)

decoded_cases :
    (env : Env) (c : Http1) (r : Result Bytes)
    → IsFine (complete_decoded env c r)
    → (dec : Bytes) × (r ≡ ok dec)
unfolding complete_decoded
decoded_cases env c invalid fine = ground arith
decoded_cases env c overflow fine = ground arith
decoded_cases env c (ok dec) fine = (dec, refl)

decoded_after :
    (env : Env) (c : Http1) (r : Result Bytes) (dec norm : Bytes) (slash : Bool)
    → r ≡ ok dec
    → path_normalize_absolute dec c.path_norm_cap ≡ some (ok (norm, slash))
    → complete_decoded env c r
      ≡ complete_body env
          (record c { path_dec = some dec; path_norm = some norm; path_ends_with_slash = slash })
unfolding complete_decoded complete_normalized
decoded_after env c r dec norm slash e f = rw (e, f) refl

decoded-Reached :
    (env : Env) (c : Http1) (path : Bytes)
    → IsFine (complete_decoded env c (percent_decode_strict path c.path_dec_cap true))
    → Reached env path c (complete_decoded env c (percent_decode_strict path c.path_dec_cap true))
unfolding complete_decoded
decoded-Reached env c path fine =
    let (dec, e) = decoded_cases env c (percent_decode_strict path c.path_dec_cap true) fine in
    let fine_dec = subst (λ r. IsFine (complete_decoded env c r)) e fine in
    let ((norm, slash), f) =
      normalized_cases env (record c { path_dec = some dec })
        (path_normalize_absolute dec c.path_norm_cap) fine_dec in
    record {
      dec = dec;
      norm = norm;
      slash = slash;
      before = c;
      keeps = (refl, refl, refl, refl, refl, refl, refl, refl, refl);
      decoded = e;
      normalized = f;
      after =
          decoded_after env c (percent_decode_strict path c.path_dec_cap true) dec norm slash e f;
    }

Keeps-trans : (a b c : Http1) → Keeps a b → Keeps b c → Keeps a c
Keeps-trans a b c (e, f, g, h, i, j, k, l, m) (e', f', g', h', i', j', k', l', m') =
    (e' ∙ e, f' ∙ f, g' ∙ g, h' ∙ h, i' ∙ i, j' ∙ j, k' ∙ k, l' ∙ l, m' ∙ m)

Reached-earlier :
    (env : Env) (path : Bytes) (b c d : Http1)
    → Keeps b c
    → Reached env path c d
    → Reached env path b d
Reached-earlier env path b c d keeps r = record {
  dec = r.dec;
  norm = r.norm;
  slash = r.slash;
  before = r.before;
  keeps = Keeps-trans b c r.before keeps r.keeps;
  decoded = r.decoded;
  normalized = r.normalized;
  after = r.after;
}

with_buffers-Keeps : (c : Http1) (n : ℕ) → Keeps c (with_norm (with_dec c n) n)
with_buffers-Keeps c n = elim (Bool-cases (is_none c.path_dec)) [
  | inl e ↦ elim (Bool-cases (is_none c.path_norm)) [
    | inl f ↦ rw (e, f) (refl, refl, refl, refl, refl, refl, refl, refl, refl)
    | inr f ↦ rw (e, f) (refl, refl, refl, refl, refl, refl, refl, refl, refl)
  ]
  | inr e ↦ elim (Bool-cases (is_none c.path_norm)) [
    | inl f ↦ rw (e, f) (refl, refl, refl, refl, refl, refl, refl, refl, refl)
    | inr f ↦ rw (e, f) (refl, refl, refl, refl, refl, refl, refl, refl, refl)
  ]
]

-- The length a buffer is allocated with.
abbrev cap_for : Bytes → ℕ
cap_for path = if ltb (length path) 1 then 1 else length path

abbrev with_buffers : Http1 → Bytes → Http1
with_buffers c path = with_norm (with_dec c (cap_for path)) (cap_for path)

buffers_after :
    (env : Env) (c : Http1) (path : Bytes)
    → (is_none c.path_dec && not env.dec_alloc) ≡ false
    → (is_none (with_dec c (cap_for path)).path_norm && not env.norm_alloc) ≡ false
    → complete_buffers env c path
      ≡ complete_decoded env
          (with_buffers c path)
          (percent_decode_strict path (with_buffers c path).path_dec_cap true)
unfolding complete_buffers
buffers_after env c path e f = rw (e, f) refl

buffers_allocated :
    (env : Env) (c : Http1) (path : Bytes)
    → IsFine (complete_buffers env c path)
    → ((is_none c.path_dec && not env.dec_alloc) ≡ false)
      × ((is_none (with_dec c (cap_for path)).path_norm && not env.norm_alloc) ≡ false)
unfolding complete_buffers
buffers_allocated env c path fine = elim (Bool-cases (is_none c.path_dec && not env.dec_alloc)) [
  | inl e ↦ ground (arith, e)
  | inr e ↦
      elim (Bool-cases (is_none (with_dec c (cap_for path)).path_norm && not env.norm_alloc)) [
        | inl f ↦ ground (arith, e, f)
        | inr f ↦ (e, f)
      ]
]

buffers-Reached :
    (env : Env) (c : Http1) (path : Bytes)
    → IsFine (complete_buffers env c path)
    → Reached env path c (complete_buffers env c path)
buffers-Reached env c path fine =
    let (e, f) = buffers_allocated env c path fine in
    let after = buffers_after env c path e f in
    let there = decoded-Reached env (with_buffers c path) path (subst IsFine after fine) in
    subst (Reached env path c) (sym after) (
      Reached-earlier env path c (with_buffers c path) _ (with_buffers-Keeps c (cap_for path))
        there)

abbrev pub at_path : Http1 → Bytes → Http1
at_path c target =
    let (path_len, query_off, query_len) = split_path_query target in
    record c { path_len = path_len; query_off = query_off; query_len = query_len }

path_after :
    (env : Env) (c : Http1) (target : Bytes)
    → IsFine (complete_path env c target)
    → (starts_with_slash target ≡ true)
      × ((split_path_query target).0 ≤ req_path_max)
      × (complete_path env c target
          ≡ complete_buffers env (at_path c target) (take (split_path_query target).0 target))
unfolding complete_path
path_after env c target fine =
    elim (Bool-cases ((split_path_query target).0 == 0 || not (starts_with_slash target))) [
      | inl e ↦ ground (arith, e)
      | inr e ↦ elim (Bool-cases (ltb req_path_max (split_path_query target).0)) [
        | inl f ↦ ground (arith, e, f)
        | inr f ↦ (ground (arith, e), ground (arith, f), rw (e, f) refl)
      ]
    ]

-- What a fine request went through, from its target on.
pub record Passed (env : Env) (c d : Http1) : Type 0 where
  pub target : Bytes
  pub is_target : c.target ≡ some target
  pub absolute : starts_with_slash target ≡ true
  pub short : (split_path_query target).0 ≤ req_path_max
  pub reached : Reached env (take (split_path_query target).0 target) (at_path c target) d

path-Passed :
    (env : Env) (c : Http1) (target : Bytes)
    → c.target ≡ some target
    → IsFine (complete_path env c target)
    → Passed env c (complete_path env c target)
path-Passed env c target h fine =
    let (slash, short, after) = path_after env c target fine in
    record {
      target = target;
      is_target = h;
      absolute = slash;
      short = short;
      reached =
          subst (Reached env (take (split_path_query target).0 target) (at_path c target))
            (sym after)
            (buffers-Reached env (at_path c target) (take (split_path_query target).0 target)
              (subst IsFine after fine));
    }

with_target-Passed :
    (env : Env) (c : Http1) (t : Option Bytes)
    → c.target ≡ t
    → IsFine (complete_with_target env c t)
    → Passed env c (complete_with_target env c t)
unfolding complete_with_target
with_target-Passed env c none h fine = ground arith
with_target-Passed env c (some []) h fine = ground arith
with_target-Passed env c (some (t ∷ target)) h fine = elim (Bool-cases c.target_too_long) [
  | inl e ↦ absurd (ground (arith, e))
  | inr e ↦
      let after : complete_with_target env c (some (t ∷ target))
          ≡ complete_path env c (t ∷ target) =
        rw e refl in
      subst (Passed env c) (sym after) (path-Passed env c (t ∷ target) h (subst IsFine after fine))
]

target_after :
    (env : Env) (c : Http1)
    → IsFine (complete_target env c)
    → (complete_target env c).method_not_allowed ≡ false
    → complete_target env c ≡ complete_with_target env c c.target
unfolding complete_target
target_after env c fine allowed = elim (Bool-cases (is_get_or_head c.method)) [
  | inl e ↦ elim (Bool-cases c.internal_error) [
    | inl f ↦ absurd (ground (arith, e, f))
    | inr f ↦ rw (e, f) refl
  ]
  | inr e ↦ absurd (ground (arith, e))
]

pub target-Passed :
    (env : Env) (c : Http1)
    → IsFine (complete_target env c)
    → (complete_target env c).method_not_allowed ≡ false
    → Passed env c (complete_target env c)
target-Passed env c fine allowed =
    let after = target_after env c fine allowed in
    subst (Passed env c) (sym after)
      (with_target-Passed env c c.target refl (subst IsFine after fine))
