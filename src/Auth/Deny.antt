-- ===== src/Auth/Deny.antt =====
-- The headers of the 401 response of auth.c.
use lamseryn.Prelude.{
  suc, ℕ, ◌+◌, ◌<◌, Bool, false, none, some, List, [], ◌∷◌, ◌++◌, Bytes, leb, ◌==◌, if◌then◌else◌,
  length, ◌≡◌, sym, ap, ◌∙◌, arith, if_both, length-append, append-nil, append_assoc,
}
use lamseryn.Auth.{
  PolicyLines, auth_hdr_appendf, append_lines, auth_build_policy_extra_headers, challenge_text,
  or_restricted, challenge, deny_headers,
}

-- A text that fits behind the others is put there.
auth_hdr_appendf_lem :
    (cap : ℕ) (buf text : Bytes)
    → 0 < length text
    → length buf + length text < cap
    → auth_hdr_appendf cap buf text ≡ some (buf ++ text)
unfolding auth_hdr_appendf
auth_hdr_appendf_lem cap buf text h k = ground (arith, h, k)

Short : Bytes → Type 0
Short s = (0 < length s) × (length s < 128)

challenge-Short : (realm : Bytes) → Short (challenge realm)
unfolding challenge Short
challenge-Short realm =
    if_both Short (leb 128 (length (challenge_text (or_restricted realm))))
      (λ e. (omega arith, omega arith)) (λ e. (omega arith, ground (arith, e)))

-- What the lines of the policy that are not empty are together.
abbrev pub joined : List Bytes → Bytes
joined [] = []
joined (l ∷ ls) = l ++ joined ls

suc-zero : (n : ℕ) → (suc n == 0) ≡ false
suc-zero n = ground arith

append_lines-joined :
    (buf : Bytes) (lines : List Bytes)
    → length buf + length (joined lines) < 1024
    → append_lines buf lines ≡ some (buf ++ joined lines)
unfolding append_lines
append_lines-joined buf [] h = ap some (sym (append-nil buf))
append_lines-joined buf ([] ∷ ls) h = append_lines-joined buf ls h
append_lines-joined buf ((c ∷ l) ∷ ls) h =
    rw
      (
        append_lines,
        suc-zero (length l),
        auth_hdr_appendf_lem 1024 buf (c ∷ l) (omega arith)
            (omega (arith, h, length-append (c ∷ l) (joined ls))),
      )
      (append_lines-joined (buf ++ c ∷ l) ls
          (omega (arith, h, length-append (c ∷ l) (joined ls), length-append buf (c ∷ l)))
        ∙ ap some (append_assoc buf (c ∷ l) (joined ls)))

with_extra :
    (buf extra : Bytes)
    → Short buf
    → length extra < 1024
    → (let more = auth_hdr_appendf 1280 buf extra in if length extra == 0 then some buf else more)
      ≡ some (buf ++ extra)
unfolding Short
with_extra buf [] h k = ap some (sym (append-nil buf))
with_extra buf (c ∷ extra) h k =
    rw (suc-zero (length extra))
      (auth_hdr_appendf_lem 1280 buf (c ∷ extra) (omega arith) (omega (arith, h.1)))

build-joined :
    (policy : PolicyLines)
    → policy.overflow ≡ false
    → length (joined policy.lines) < 1024
    → auth_build_policy_extra_headers policy ≡ some (joined policy.lines)
unfolding auth_build_policy_extra_headers
build-joined policy e h =
    collected policy.overflow policy.lines e (append_lines-joined [] policy.lines (omega arith))
  where
    collected :
        (b : Bool) (lines : List Bytes)
        → b ≡ false
        → append_lines [] lines ≡ some (joined lines)
        → (if b then none else append_lines [] lines) ≡ some (joined lines)
    collected b lines e h = rw e h

-- If the policy's lines are collected and are below 1024 bytes together, there is room for the challenge and these lines,
-- whatever the realm is, and they are the headers of the 401 response in this order.
pub deny_headers_lem :
    (realm : Bytes) (policy : PolicyLines)
    → policy.overflow ≡ false
    → length (joined policy.lines) < 1024
    → deny_headers realm policy ≡ some (challenge realm ++ joined policy.lines)
unfolding deny_headers Short
deny_headers_lem realm policy e h =
    rw
      (
        deny_headers,
        build-joined policy e h,
        auth_hdr_appendf_lem 1280 [] (challenge realm) (challenge-Short realm).0
            (omega (arith, (challenge-Short realm).1)),
      )
      (with_extra (challenge realm) (joined policy.lines) (challenge-Short realm) h)
