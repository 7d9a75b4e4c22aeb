-- ===== src/Auth/Written.antt =====
-- A credential file written line by line is loaded by auth.c as it was written.
use lamseryn.Prelude.{
  ℕ, zero, suc, ◌+◌, ◌≤◌, ◌<◌, Bool, true, false, ◌||◌, not, Option, some, List, [], ◌∷◌, ◌++◌,
  Bytes, ltb, leb, ◌==◌, length, length-append, ◌≡◌, ◌≢◌, refl, sym, ap, ◌∙◌, All, arith, if_both,
  append_assoc, append-nil,
}
use lamseryn.Auth.{Crypt, AuthEntry}
use lamseryn.Auth.Verify.{split_colon-append}
use lamseryn.Auth.Load.{
  fgets, until_nul, stripped, usable, is_comment, line_entry, next_cap, grown, more, after_read,
  load_line, load_from, go_on, loaded, auth_store_load,
}
use lamseryn.Auth.Loaded.{IsEntry}

-- A character of a line.
abbrev pub plain : ℕ → Bool
plain c = not (c == 0 || (c == 10 || c == 13))

abbrev pub line_of : AuthEntry → Bytes
line_of e = e.user ++ b':' ∷ e.hash

unfoldable pub file_of : List AuthEntry → Bytes
file_of [] = []
file_of (e ∷ es) = line_of e ++ 10 ∷ file_of es

-- An entry that a line can hold: no colon in the user, no `#` before it, no line end and no NUL.
unfoldable pub IsWritable : Crypt → AuthEntry → Type 0
IsWritable crypt e =
    IsEntry crypt e
    × All (λ c. c ≢ b':') e.user
    × (is_comment e.user ≡ false)
    × All (λ c. plain c ≡ true) (line_of e)

plain_lem :
    (c : ℕ) → plain c ≡ true → ((c == 0) ≡ false) × ((c == 10) ≡ false) × ((c == 13) ≡ false)
plain_lem c p = ground (arith, p)

fgets-line :
    (n : ℕ) (line rest : Bytes)
    → All (λ c. plain c ≡ true) line
    → length line < n
    → fgets n (line ++ 10 ∷ rest) ≡ (line ++ 10 ∷ [], rest)
unfolding fgets
fgets-line zero line rest p h = absurd (omega arith)
fgets-line (suc n) [] rest p h = refl
fgets-line (suc n) (c ∷ line) rest p h =
    rw (fgets-line n line rest p.1 (omega arith), (plain_lem c p.0).1) refl

until_nul-line :
    (line : Bytes) → All (λ c. plain c ≡ true) line → until_nul (line ++ 10 ∷ []) ≡ line ++ 10 ∷ []
unfolding until_nul
until_nul-line [] p = refl
until_nul-line (c ∷ line) p = rw (until_nul-line line p.1, (plain_lem c p.0).0) refl

stripped-line : (line : Bytes) → All (λ c. plain c ≡ true) line → stripped (line ++ 10 ∷ []) ≡ line
unfolding stripped
stripped-line [] p = refl
stripped-line (c ∷ line) p =
    rw (stripped-line line p.1, (plain_lem c p.0).1, (plain_lem c p.0).2) refl

user_length : (n m : ℕ) → 0 < n → n ≤ m → (n == 0 || ltb m n) ≡ false
user_length n m h k = ground (arith, h, k)

usable-entry :
    (crypt : Crypt) (e : AuthEntry)
    → IsEntry crypt e
    → usable crypt (some (e.user, e.hash)) ≡ some e
unfolding IsEntry
usable-entry crypt e h =
    rw (user_length (length e.user) 64 h.0 h.1, user_length (length e.hash) 128 h.2 h.3, h.4) refl

comment_line : (e : AuthEntry) → is_comment e.user ≡ false → is_comment (line_of e) ≡ false
comment_line e h = user_comment e.user e.hash h
  where
    user_comment :
        (user hash : Bytes) → is_comment user ≡ false → is_comment (user ++ b':' ∷ hash) ≡ false
    user_comment [] hash h = absurd (ground (arith, h))
    user_comment (c ∷ user) hash h = h

line_entry-line_of :
    (crypt : Crypt) (e : AuthEntry) → IsWritable crypt e → line_entry crypt (line_of e) ≡ some e
unfolding line_entry IsWritable
line_entry-line_of crypt e h =
    rw (comment_line e h.2, split_colon-append e.user e.hash h.1) (usable-entry crypt e h.0)

grown-some :
    (grow : ℕ → Bool) (count cap : ℕ)
    → ((n : ℕ) → grow n ≡ true)
    → (more_cap : ℕ) × (grown grow count cap ≡ some more_cap)
unfolding grown
grown-some grow count cap all =
    if_both (λ (o : Option ℕ). (more_cap : ℕ) × (o ≡ some more_cap)) (count == cap)
      (λ e. (next_cap cap, rw (all (next_cap cap)) refl)) (λ e. (cap, refl))

line_of-length : (crypt : Crypt) (e : AuthEntry) → IsEntry crypt e → length (line_of e) < 194
unfolding IsEntry
line_of-length crypt e h = omega (arith, length-append e.user (b':' ∷ e.hash), h.1, h.3)

below : (n m : ℕ) → n < m → (n == m) ≡ false
below n m h = ground (arith, h)

below_leb : (n m : ℕ) → n < m → leb m n ≡ false
below_leb n m h = ground (arith, h)

after_read-line_of :
    (crypt : Crypt) (grow : ℕ → Bool) (es : List AuthEntry) (cap : ℕ) (e : AuthEntry) (rest : Bytes)
    → IsWritable crypt e
    → ((n : ℕ) → grow n ≡ true)
    → length es < 256
    → (more_cap : ℕ) × (after_read crypt grow es cap (line_of e ++ 10 ∷ [], rest)
        ≡ more (es ++ e ∷ []) more_cap rest)
unfolding after_read IsWritable
after_read-line_of crypt grow es cap e rest h all k =
    let (more_cap, g) = grown-some grow (length es) cap all in
    (
      more_cap,
      rw
          (
            until_nul-line (line_of e) h.3,
            stripped-line (line_of e) h.3,
            below (length (line_of e)) 194 (line_of-length crypt e h.0),
            line_entry-line_of crypt e h,
            below_leb (length es) 256 k,
            g,
          )
          refl,
    )

load_line-line_of :
    (crypt : Crypt) (grow : ℕ → Bool) (es : List AuthEntry) (cap : ℕ) (e : AuthEntry) (rest : Bytes)
    → IsWritable crypt e
    → ((n : ℕ) → grow n ≡ true)
    → length es < 256
    → (more_cap : ℕ) × (load_line crypt grow es cap (line_of e ++ 10 ∷ rest)
        ≡ more (es ++ e ∷ []) more_cap rest)
unfolding load_line IsWritable
load_line-line_of crypt grow es cap e rest h all k =
    let (more_cap, step) = after_read-line_of crypt grow es cap e rest h all k in
    (
      more_cap,
      ap (after_read crypt grow es cap)
            (fgets-line 194 (line_of e) rest h.3 (line_of-length crypt e h.0))
          ∙ step,
    )

load_from-step :
    (fuel : ℕ) (crypt : Crypt) (grow : ℕ → Bool) (es : List AuthEntry) (cap : ℕ) (s : Bytes)
    → 0 < length s
    → load_from (suc fuel) crypt grow es cap s
      ≡ go_on (load_line crypt grow es cap s) (load_from fuel crypt grow)
unfolding load_from
load_from-step fuel crypt grow es cap [] h = absurd (omega arith)
load_from-step fuel crypt grow es cap (c ∷ s) h = refl

load_from-file_of :
    (ws : List AuthEntry) (fuel : ℕ) (crypt : Crypt) (grow : ℕ → Bool) (es : List AuthEntry)
    (cap : ℕ)
    → All (IsWritable crypt) ws
    → ((n : ℕ) → grow n ≡ true)
    → length es + length ws ≤ 256
    → length (file_of ws) < fuel
    → load_from fuel crypt grow es cap (file_of ws) ≡ some (es ++ ws)
unfolding load_from file_of
load_from-file_of ws zero crypt grow es cap h all k f = absurd (omega arith)
load_from-file_of [] (suc fuel) crypt grow es cap h all k f = ap some (sym (append-nil es))
load_from-file_of (e ∷ ws) (suc fuel) crypt grow es cap h all k f =
    let rest = file_of ws in
    let (more_cap, step) = load_line-line_of crypt grow es cap e rest h.0 all (omega arith) in
    let longer = length-append (line_of e) (10 ∷ rest) in
    load_from-step fuel crypt grow es cap (line_of e ++ 10 ∷ rest) (omega (arith, longer))
    ∙ ap (λ s. go_on s (load_from fuel crypt grow)) step
    ∙ load_from-file_of ws fuel crypt grow (es ++ e ∷ []) more_cap h.1 all
        (omega (arith, length-append es (e ∷ []))) (omega (arith, longer))
    ∙ ap some (append_assoc es (e ∷ []) ws)

-- From 1 to 256 writable entries, written one in a line into a file that is read without an error and with enough memory,
-- are loaded as they are and in their order.
pub auth_store_load-file_of :
    (crypt : Crypt) (grow : ℕ → Bool) (ws : List AuthEntry)
    → All (IsWritable crypt) ws
    → ((n : ℕ) → grow n ≡ true)
    → 0 < length ws
    → length ws ≤ 256
    → auth_store_load crypt true grow false (some (file_of ws)) ≡ some ws
unfolding auth_store_load
auth_store_load-file_of crypt grow [] h all k j = absurd (omega arith)
auth_store_load-file_of crypt grow (w ∷ ws) h all k j = ap (loaded false) (
    load_from-file_of (w ∷ ws) (suc (length (file_of (w ∷ ws)))) crypt grow [] 0 h all (omega arith)
      (omega arith))
